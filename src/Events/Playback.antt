-- ===== src/Events/Playback.antt =====
-- server/persist.go: Playback reads the table in pages of 500 rows.
use vow.Prelude.{
  ℕ, zero, suc, ◌≤◌, ◌<◌, ◌≡◌, refl, sym, ◌∙◌, ap, subst, arith, Bool, true, false, Bool-cases, inl,
  inr, ◌⊎◌, List, [], ◌∷◌, ◌++◌, ltb, if◌then◌else◌, All, ltb→lt, length, take, drop, Result, ok,
  err,
}
use vow.Prelude.Results.{◌>>=◌, bind_ok}
use vow.Events.{Event, EventRecord, PersistError, Codec, deserialize_event}
use vow.Events.Log.{Increasing}

abbrev pub page_size : ℕ
page_size = 500

-- WHERE seq > cursor, in the order of seq.
unfoldable pub after : ℕ → List EventRecord → List EventRecord
after cursor [] = []
after cursor (x ∷ xs) = let rest = after cursor xs in if ltb cursor x.seq then x ∷ rest else rest

-- The callback works on a state of its own; its errors are those of the model.
module _ {S : Type 0} (codec : Codec) (cb : Event → S → Result PersistError S) where
  -- The rows of one page: the cursor moves behind each row that was delivered.
  unfoldable pub deliver_page : List EventRecord → ℕ → S → Result PersistError (ℕ × S)
  deliver_page [] cursor s = ok (cursor, s)
  deliver_page (x ∷ xs) cursor s = do
    evt ← deserialize_event codec x.type_ x.data_
    t ← cb evt s
    deliver_page xs x.seq t

  -- `fuel` bounds the number of pages; running out of it is no result.
  unfoldable pub playback : ℕ → List EventRecord → ℕ → S → Result PersistError (Bool × S)
  unfolding deliver_page after
  playback zero rows cursor s = ok (false, s)
  playback (suc fuel) rows cursor s = elim (take page_size (after cursor rows)) [
    | [] ↦ ok (true, s)
    | x ∷ xs ↦ (do
      (last, t) ← deliver_page (x ∷ xs) cursor s
      let more = playback fuel rows last t
      if ltb (length (x ∷ xs)) page_size then ok (true, t) else more)
  ]

after-All :
    (c : ℕ) (rows : List EventRecord)
    → All (λ (y : EventRecord). c < y.seq) rows
    → after c rows ≡ rows
unfolding after
after-All c [] a = refl
after-All c (x ∷ xs) a = let lt = a.0 in ground (arith, after-All c xs a.1)

after-after : (c d : ℕ) (rows : List EventRecord) → c ≤ d → after d (after c rows) ≡ after d rows
unfolding after
after-after c d [] le = refl
after-after c d (x ∷ xs) le = ground (arith, after-after c d xs le)

after-above :
    (c : ℕ) (rows : List EventRecord) → All (λ (y : EventRecord). c < y.seq) (after c rows)
unfolding after
after-above c [] = tt
after-above c (x ∷ xs) = elim (Bool-cases (ltb c x.seq)) [
  | inl e ↦ rw (after, e) (ltb→lt c x.seq e, after-above c xs)
  | inr e ↦ rw (after, e) (after-above c xs)
]

after-All_of {κ} :
    (P : EventRecord → Type κ) (c : ℕ) (rows : List EventRecord) → All P rows → All P (after c rows)
unfolding after
after-All_of P c [] a = tt
after-All_of P c (x ∷ xs) a = elim (Bool-cases (ltb c x.seq)) [
  | inl e ↦ rw (after, e) (a.0, after-All_of P c xs a.1)
  | inr e ↦ rw (after, e) (after-All_of P c xs a.1)
]

after-Increasing : (c : ℕ) (rows : List EventRecord) → Increasing rows → Increasing (after c rows)
unfolding after
after-Increasing c [] h = tt
after-Increasing c (x ∷ xs) h = elim (Bool-cases (ltb c x.seq)) [
  | inl e ↦
      rw (after, e)
        (after-All_of (λ (y : EventRecord). x.seq < y.seq) c xs h.0, after-Increasing c xs h.1)
  | inr e ↦ rw (after, e) (after-Increasing c xs h.1)
]

drop_all : (n : ℕ) (xs : List EventRecord) → length (take n xs) < n → drop n xs ≡ []
drop_all zero xs h = absurd (omega arith)
drop_all (suc n) [] h = refl
drop_all (suc n) (x ∷ xs) h = drop_all n xs (omega arith)

take-drop : (n : ℕ) (xs : List EventRecord) → take n xs ++ drop n xs ≡ xs
take-drop zero xs = refl
take-drop (suc n) [] = refl
take-drop (suc n) (x ∷ xs) = ap (λ r. x ∷ r) (take-drop n xs)

length-drop_le : (n : ℕ) (xs : List EventRecord) → length (drop n xs) ≤ length xs
length-drop_le zero xs = omega arith
length-drop_le (suc n) [] = omega arith
length-drop_le (suc n) (x ∷ xs) = omega (arith, length-drop_le n xs)

module _ {S : Type 0} (codec : Codec) (cb : Event → S → Result PersistError S) where
  -- All rows behind the cursor in one go.
  unfoldable pub deliver_all : List EventRecord → ℕ → S → Result PersistError (Bool × S)
  deliver_all rows cursor s = do (last, t) ← deliver_page codec cb rows cursor s; ok (true, t)

  deliver_page-append :
      (xs ys : List EventRecord) (cursor : ℕ) (s : S)
      → deliver_page codec cb (xs ++ ys) cursor s
        ≡ (deliver_page codec cb xs cursor s >>= λ r. deliver_page codec cb ys r.0 r.1)
  unfolding deliver_page
  deliver_page-append [] ys cursor s = refl
  deliver_page-append (x ∷ xs) ys cursor s =
      by_event (λ t. deliver_page-append xs ys x.seq t) (deserialize_event codec x.type_ x.data_)
    where
      by_state :
          ((t : S)
            → deliver_page codec cb (xs ++ ys) x.seq t
              ≡ (deliver_page codec cb xs x.seq t >>= λ r. deliver_page codec cb ys r.0 r.1))
          → (r : Result PersistError S)
          → (r >>= λ t. deliver_page codec cb (xs ++ ys) x.seq t) ≡ (
              (r >>= λ t. deliver_page codec cb xs x.seq t) >>= λ r.
              deliver_page codec cb ys r.0 r.1)
      by_state rest (ok t) = rest t
      by_state rest (err e) = refl

      by_event :
          ((t : S)
            → deliver_page codec cb (xs ++ ys) x.seq t
              ≡ (deliver_page codec cb xs x.seq t >>= λ r. deliver_page codec cb ys r.0 r.1))
          → (d : Result PersistError Event)
          → (d >>= λ evt. cb evt s >>= λ t. deliver_page codec cb (xs ++ ys) x.seq t) ≡ (
              (d >>= λ evt. cb evt s >>= λ t. deliver_page codec cb xs x.seq t) >>= λ r.
              deliver_page codec cb ys r.0 r.1)
      by_event rest (ok evt) = by_state rest (cb evt s)
      by_event rest (err e) = refl

  -- Behind the last row of a page come exactly the rows that follow it.
  deliver_page-after :
      (xs ys : List EventRecord) (c : ℕ) (s : S) (r : ℕ × S)
      → Increasing (xs ++ ys)
      → All (λ (y : EventRecord). c < y.seq) (xs ++ ys)
      → deliver_page codec cb xs c s ≡ ok r
      → (after r.0 (xs ++ ys) ≡ ys) × (c ≤ r.0)
  unfolding deliver_page after
  deliver_page-after [] ys c s r h a e =
      let same : c ≡ r.0 = ground arith in
      (ap (λ (n : ℕ). after n ys) (sym same) ∙ after-All c ys a, omega arith)
  deliver_page-after (x ∷ xs) ys c s r h a e =
      let (evt, d, e1) = bind_ok (deserialize_event codec x.type_ x.data_) _ r e in
      let (t, f, e2) = bind_ok (cb evt s) _ r e1 in
      let (rest, le) = deliver_page-after xs ys x.seq t r h.1 h.0 e2 in
      let lt = a.0 in (ground (arith, rest), omega arith)

  Result-cases :
      {A : Type 0} (r : Result PersistError A)
      → ((a : A) × (r ≡ ok a)) ⊎ ((e : PersistError) × (r ≡ err e))
  Result-cases (ok a) = inl (a, refl)
  Result-cases (err e) = inr (e, refl)

  -- One full page and what the following pages deliver.
  full_page :
      (page rest rows : List EventRecord) (c : ℕ) (s : S)
      → Increasing (page ++ rest)
      → All (λ (y : EventRecord). c < y.seq) (page ++ rest)
      → after c rows ≡ page ++ rest
      → (r : ℕ × S) → deliver_page codec cb page c s ≡ ok r
      → after r.0 rows ≡ rest
  full_page page rest rows c s h a e r ran =
      let (behind, le) = deliver_page-after page rest c s r h a ran in
      sym (after-after c r.0 rows le) ∙ (ap (after r.0) e ∙ behind)

  -- On rows with increasing numbers and with more fuel than there are of them behind the cursor,
  -- Playback comes to its end, and delivers
  -- exactly these rows, each once and in order, up to the first row that fails, if one does: the
  -- pages are not seen.
  pub playback-deliver_all :
      (fuel : ℕ) (rows : List EventRecord) (c : ℕ) (s : S)
      → Increasing rows
      → length (after c rows) < fuel
      → playback codec cb fuel rows c s ≡ deliver_all (after c rows) c s
  unfolding playback deliver_all
  playback-deliver_all zero rows c s h lt = absurd (omega arith)
  playback-deliver_all (suc fuel) rows c s h lt =
      by_rows (after c rows) refl (after-Increasing c rows h) (after-above c rows) lt
        (λ d t g. playback-deliver_all fuel rows d t h g)
    where
      by_rows :
          (xs : List EventRecord)
          → after c rows ≡ xs
          → Increasing xs
          → All (λ (y : EventRecord). c < y.seq) xs
          → length xs < suc fuel
          → ((d : ℕ) (t : S)
              → length (after d rows) < fuel
              → playback codec cb fuel rows d t ≡ deliver_all (after d rows) d t)
          → playback codec cb (suc fuel) rows c s ≡ deliver_all xs c s
      by_rows [] e h a lt next = rw (e, playback) refl
      by_rows (x ∷ ys) e h a lt next =
          let page = x ∷ take 499 ys in
          let rest = drop 499 ys in
          let split : page ++ rest ≡ x ∷ ys = ap (λ r. x ∷ r) (take-drop 499 ys) in
          elim (Result-cases (deliver_page codec cb page c s)) [
            | inr (f, failed) ↦
                let whole : deliver_page codec cb (x ∷ ys) c s ≡ err f =
                  ap (λ zs. deliver_page codec cb zs c s) (sym split)
                  ∙ (deliver_page-append page rest c s ∙ rw failed refl) in
                rw (e, playback, failed) (rw (deliver_all, whole) refl)
            | inl (r, ran) ↦
                let behind =
                  full_page page rest rows c s (subst Increasing (sym split) h)
                    (subst (All (λ (y : EventRecord). c < y.seq)) (sym split) a) (e ∙ sym split) r
                    ran in
                let whole : deliver_page codec cb (x ∷ ys) c s
                    ≡ deliver_page codec cb rest r.0 r.1 =
                  ap (λ zs. deliver_page codec cb zs c s) (sym split)
                  ∙ (deliver_page-append page rest c s ∙ rw ran refl) in
                elim (Bool-cases (ltb (length page) page_size)) [
                  | inl short ↦
                      let fewer = ltb→lt (length page) page_size short in
                      let none_left = drop_all 499 ys (omega (arith, fewer)) in
                      let final : deliver_page codec cb rest r.0 r.1 ≡ ok r =
                        rw (none_left, deliver_page) refl in
                      rw (e, playback, ran, short) (rw (deliver_all, whole, final) refl)
                  | inr full ↦
                      let small : length (after r.0 rows) < fuel =
                        rw behind (omega (arith, length-drop_le 499 ys)) in
                      let tail = next r.0 r.1 small in
                      rw (e, playback, ran, full, tail, behind) (rw (deliver_all, whole) refl)
                ]
          ]
