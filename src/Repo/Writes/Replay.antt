-- ===== src/Repo/Writes/Replay.antt =====
-- server/repo.go: what the operations, the rows and the blocks of a batch of writes tell of the
-- change of the tree.
use vow.Prelude.{
  eq_iff, ℕ, ◌≡◌, refl, ap, sym, subst, ◌∙◌, arith, String, str_eq, not, Bool-cases, Option-cases,
  inl, inr, ◌⊎◌, Option, none, some, List, [], ◌∷◌, ◌++◌, if◌then◌else◌, All, map, Bytes, Result,
  ok,
}
use vow.Prelude.Action.{ran, went_on, had}
use vow.Signer.Hub.Waiting.{All-imp, All-append}
use vow.Repo.Cache.{Cid}
use vow.Repo.Libraries.{Operation, Libraries, IsMap}
use vow.Repo.Writes.{
  log_put, ApplyWriteResult, OpType, create, update, delete, unknown, Op, Entry, WriteError, Draft,
  path_of, resolve, apply_op, put_record_block, write_record, delete_record, apply_typed,
  apply_write, apply_all, new_draft, bad_rkey, nil_pointer, bad_record, default_type,
}

abbrev pub Records : Type 0
Records = String → Option Cid

abbrev pub assign : Records → String → Option Cid → Records
assign f p v q = if str_eq q p then v else f q

-- The records after some operations, and what each operation says of the record before it.
abbrev pub replay : Records → List Operation → Records
replay f [] = f
replay f (op ∷ ops) = replay (assign f op.path op.value) ops

abbrev pub IsHistory : Records → List Operation → Type 0
IsHistory f [] = Unit
IsHistory f (op ∷ ops) = (op.prev ≡ f op.path) × IsHistory (assign f op.path op.value) ops

abbrev pub Logged : Cid → List (Cid × Bytes) → Type 0
Logged c [] = ⊥
Logged c (b ∷ log) = (b.0 ≡ c) ⊎ Logged c log

abbrev pub LoggedValue : List (Cid × Bytes) → Option Cid → Type 0
LoggedValue log none = Unit
LoggedValue log (some c) = Logged c log

module _ (lib : Libraries) where
  abbrev pub row : Entry → String × String
  row e = (path_of lib e.nsid e.rkey, e.cid)

  abbrev pub text_of : Option Cid → String
  text_of none = ""
  text_of (some c) = lib.cid_string c

  abbrev pub change : Operation → String × String
  change op = (op.path, text_of op.value)

  -- The tree holds what the operations make of the records at the start, each operation names the
  -- record that it replaced, the rows say the same as the operations, and the blocks of all new
  -- records are among those written.
  pub record Tracks (base : Records) (d : Draft lib) : Type 0 where
    pub tree : (q : String) → lib.get d.tree q ≡ replay base d.atp_ops q
    pub history : IsHistory base d.atp_ops
    pub rows : map row d.entries ≡ map change d.atp_ops
    pub logged : All (λ (op : Operation). LoggedValue d.write_log op.value) d.atp_ops

  replay-snoc :
      (f : Records) (ops : List Operation) (op : Operation) (q : String)
      → replay f (ops ++ op ∷ []) q ≡ assign (replay f ops) op.path op.value q
  replay-snoc f [] op q = refl
  replay-snoc f (x ∷ ops) op q = replay-snoc (assign f x.path x.value) ops op q

  IsHistory-snoc :
      (f : Records) (ops : List Operation) (op : Operation)
      → IsHistory f ops
      → op.prev ≡ replay f ops op.path
      → IsHistory f (ops ++ op ∷ [])
  IsHistory-snoc f [] op h e = (e, tt)
  IsHistory-snoc f (x ∷ ops) op h e = (h.0, IsHistory-snoc (assign f x.path x.value) ops op h.1 e)

  map-snoc :
      {A B : Type 0} (f : A → B) (xs : List A) (x : A) → map f (xs ++ x ∷ []) ≡ map f xs ++ f x ∷ []
  map-snoc f [] x = refl
  map-snoc f (y ∷ xs) x = ap (λ r. f y ∷ r) (map-snoc f xs x)

  Logged-log_put :
      (k c : Cid) (block : Bytes) (log : List (Cid × Bytes))
      → Logged k log
      → Logged k (log_put c block log)
  Logged-log_put k c block [] h = absurd h
  Logged-log_put k c block (b ∷ log) (inl here) = elim (Bool-cases (str_eq b.0 c)) [
    | inl same ↦ rw same (inl (sym ((eq_iff b.0 c).0 same) ∙ here))
    | inr other ↦ rw other (inl here)
  ]
  Logged-log_put k c block (b ∷ log) (inr there) = elim (Bool-cases (str_eq b.0 c)) [
    | inl same ↦ rw same (inr there)
    | inr other ↦ rw other (inr (Logged-log_put k c block log there))
  ]

  log_put-Logged :
      (c : Cid) (block : Bytes) (log : List (Cid × Bytes)) → Logged c (log_put c block log)
  log_put-Logged c block [] = inl refl
  log_put-Logged c block (b ∷ log) = elim (Bool-cases (str_eq b.0 c)) [
    | inl same ↦ rw same (inl refl)
    | inr other ↦ rw other (inr (log_put-Logged c block log))
  ]

  LoggedValue-log_put :
      (c : Cid) (block : Bytes) (log : List (Cid × Bytes)) (v : Option Cid)
      → LoggedValue log v
      → LoggedValue (log_put c block log) v
  LoggedValue-log_put c block log none h = tt
  LoggedValue-log_put c block log (some k) h = Logged-log_put k c block log h

  module _ (laws : IsMap lib) (base : Records) where
    -- One more operation, with its row.
    extended :
        (d : Draft lib) (p : String) (v : Option Cid) (x : Operation × lib.Tree) (r : Entry)
        (log : List (Cid × Bytes)) (ticks : ℕ) (results : List ApplyWriteResult)
        → Tracks base d
        → lib.apply_op d.tree p v ≡ some x
        → row r ≡ (p, text_of v)
        → All (λ (op : Operation). LoggedValue log op.value) d.atp_ops
        → LoggedValue log v
        → Tracks base (record {
          tree = x.1;
          write_log = log;
          ticks = ticks;
          atp_ops = d.atp_ops ++ x.0 ∷ [];
          entries = d.entries ++ r ∷ [];
          results = results;
        })
    extended d p v x r log ticks results h applied row_is logged new =
        let path_is = laws.path d.tree p v x applied in
        let value_is = laws.value d.tree p v x applied in
        record {
          tree = λ q.
              laws.get d.tree p q v x applied
              ∙ (rw (h.tree q, ← path_is, ← value_is) (sym (replay-snoc base d.atp_ops x.0 q)));
          history = IsHistory-snoc base d.atp_ops x.0 h.history (
              laws.prev d.tree p v x applied
              ∙ (h.tree p ∙ ap (replay base d.atp_ops) (sym path_is)));
          rows =
              map-snoc row d.entries r
              ∙ (ap (λ z. z ++ row r ∷ []) h.rows
                  ∙ (ap (λ z. map change d.atp_ops ++ z ∷ [])
                        (row_is ∙ λ i. (sym path_is i, text_of (sym value_is i)))
                      ∙ sym (map-snoc change d.atp_ops x.0)));
          logged =
              All-append (λ (op : Operation). LoggedValue log op.value) d.atp_ops (x.0 ∷ []) logged
                (subst (LoggedValue log) (sym value_is) new, tt);
        }

    -- What a method that succeeded leaves behind.
    left_by :
        (w : Result WriteError Unit × Draft lib) (e : Draft lib)
        → Tracks base w.1
        → w ≡ (ok tt, e)
        → Tracks base e
    left_by w e h done =
        subst (Tracks base) (ap (λ (z : Result WriteError Unit × Draft lib). z.1) done) h

    write_record-Tracks :
        (did : String) (type_ : OpType) (collection rkey : String) (mm : lib.Map) (d e : Draft lib)
        → Tracks base d
        → write_record lib did type_ collection rkey mm d ≡ (ok tt, e)
        → Tracks base e
    unfolding write_record put_record_block apply_op
    write_record-Tracks did type_ collection rkey mm d e h done =
        let p = path_of lib collection rkey in
        elim (Option-cases (lib.marshal_cbor mm)) [
          | inl bad ↦ absurd (ground arith)
          | inr (block, good) ↦ elim (Bool-cases (lib.takes (lib.sum block))) [
            | inr full ↦ absurd (ground arith)
            | inl takes ↦ elim (Option-cases (lib.apply_op d.tree p (some (lib.sum block)))) [
              | inl refused ↦ absurd (ground arith)
              | inr (x, applied) ↦
                  left_by (write_record lib did type_ collection rkey mm d) e
                    (rw (write_record, put_record_block, good, takes, apply_op, applied)
                      (extended d p (some (lib.sum block)) x _ _ _ _ h applied refl
                        (All-imp
                          (λ (op : Operation).
                            LoggedValue-log_put (lib.sum block) block d.write_log op.value)
                          d.atp_ops h.logged)
                        (log_put-Logged (lib.sum block) block d.write_log)))
                    done
            ]
          ]
        ]

    delete_record-Tracks :
        (did : String) (old : Bytes) (collection rkey : String) (d e : Draft lib)
        → Tracks base d
        → delete_record lib did old collection rkey d ≡ (ok tt, e)
        → Tracks base e
    unfolding delete_record apply_op
    delete_record-Tracks did old collection rkey d e h done =
        let p = path_of lib collection rkey in
        elim (Option-cases (lib.get d.tree p)) [
          | inl missing ↦
              left_by (delete_record lib did old collection rkey d) e
                (rw (delete_record, missing)
                  (record { tree = h.tree; history = h.history; rows = h.rows; logged = h.logged }))
                done
          | inr (c, there) ↦ elim (Option-cases (lib.apply_op d.tree p none)) [
            | inl refused ↦ absurd (ground arith)
            | inr (x, applied) ↦
                left_by (delete_record lib did old collection rkey d) e
                  (rw (delete_record, there, apply_op, applied)
                    (extended d p none x _ _ _ _ h applied refl h.logged tt))
                  done
          ]
        ]

    apply_typed-Tracks :
        (did : String) (stored : String → String → Bytes) (op : Op lib.Json) (type_ : OpType)
        (rkey : String) (d e : Draft lib)
        → Tracks base d
        → apply_typed lib did stored op (type_, rkey) d ≡ (ok tt, e)
        → Tracks base e
    unfolding apply_typed
    apply_typed-Tracks did stored op create rkey d e h done =
        let (rec, r, e1) = had op.record_ nil_pointer _ tt d e done in
        let (mm, m, e2) = had (lib.to_map rec) bad_record _ tt d e e1 in
        write_record-Tracks did create op.collection rkey (default_type lib op.collection mm) d e h
          e2
    apply_typed-Tracks did stored op update rkey d e h done =
        let (rec, r, e1) = had op.record_ nil_pointer _ tt d e done in
        let (mm, m, e2) = had (lib.to_map rec) bad_record _ tt d e e1 in
        write_record-Tracks did update op.collection rkey mm d e h e2
    apply_typed-Tracks did stored op delete rkey d e h done =
        delete_record-Tracks did (stored op.collection rkey) op.collection rkey d e h done
    apply_typed-Tracks did stored op (unknown s) rkey d e h done = left_by (ok tt, d) e h done

    -- Finding the type and the key moves the clock only.
    resolve-Tracks :
        (type_ : OpType) (collection : String) (rkey : Option String) (d : Draft lib)
        → Tracks base d
        → Tracks base (resolve lib type_ collection rkey d).1
    unfolding resolve
    resolve-Tracks create collection none d h = record {
      tree = h.tree;
      history = h.history;
      rows = h.rows;
      logged = h.logged;
    }
    resolve-Tracks create collection (some rkey) d h = h
    resolve-Tracks update collection none d h = h
    resolve-Tracks update collection (some rkey) d h = h
    resolve-Tracks delete collection none d h = h
    resolve-Tracks delete collection (some rkey) d h = h
    resolve-Tracks (unknown s) collection none d h = h
    resolve-Tracks (unknown s) collection (some rkey) d h = h

    apply_all-Tracks :
        (did : String) (stored : String → String → Bytes) (ops : List (Op lib.Json))
        (d e : Draft lib)
        → Tracks base d
        → apply_all lib did stored ops d ≡ (ok tt, e)
        → Tracks base e
    unfolding apply_all apply_write
    apply_all-Tracks did stored [] d e h done = left_by (ok tt, d) e h done
    apply_all-Tracks did stored (op ∷ ops) d e h done =
        let (u, first, e1) = ran (apply_write lib did stored op) _ tt d e done in
        let d1 = (apply_write lib did stored op d).1 in
        let (target, found, e2) =
          ran (resolve lib op.type_ op.collection op.rkey) _ tt d d1 (λ i. (first i, d1)) in
        let d0 = (resolve lib op.type_ op.collection op.rkey d).1 in
        let (valid, e3) = went_on (not (lib.is_record_key target.1)) bad_rkey _ tt d0 d1 e2 in
        let kept = resolve-Tracks op.type_ op.collection op.rkey d h in
        apply_all-Tracks did stored ops d1 e
          (apply_typed-Tracks did stored op target.0 target.1 d0 d1 kept e3) e1

-- Over a tree that is a map, a batch of writes that goes through: the new tree holds what its
-- operations make of the old one, each operation names the record that it replaced, the rows for
-- the table of records say the same as the operations, and the blocks of all new records are among
-- those written.
pub apply_all-new_draft :
    (lib : Libraries) (laws : IsMap lib) (did : String) (stored : String → String → Bytes)
    (ops : List (Op lib.Json)) (tree : lib.Tree) (ticks : ℕ) (d : Draft lib)
    → apply_all lib did stored ops (new_draft lib tree ticks) ≡ (ok tt, d)
    → Tracks lib (lib.get tree) d
apply_all-new_draft lib laws did stored ops tree ticks d done =
    apply_all-Tracks lib laws (lib.get tree) did stored ops (new_draft lib tree ticks) d
      (record { tree = λ q. refl; history = tt; rows = refl; logged = tt }) done
