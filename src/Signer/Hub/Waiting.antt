-- ===== src/Signer/Hub/Waiting.antt =====
-- Lists of requests that wait for a reply: every one has an empty channel of its own.
use vow.Prelude.{
  ==→eq, ℕ, ◌<◌, ◌≡◌, ◌≢◌, refl, sym, ◌∙◌, arith, String, str_eq, Bool-cases, inl, inr, Option,
  none, some, List, [], ◌∷◌, ◌++◌, ◌==◌, All, ok,
}
use vow.Signer.Conn.{Request, Reply, remove_first}
use vow.Signer.Hub.{Hub, write, send, send_all}

abbrev pub Waits : (ℕ → Option Reply) → ℕ → (ℕ → ℕ) → ℕ → Request → Type 0
Waits replies channels owner p r =
    (r.reply < channels) × (replies r.reply ≡ none) × (owner r.reply ≡ p)

-- No two requests share a channel.
abbrev pub Distinct : List Request → Type 0
Distinct [] = Unit
Distinct (r ∷ rs) = All (λ (q : Request). q.reply ≢ r.reply) rs × Distinct rs

pub All-imp {κ μ} :
    {A : Type 0} {P : A → Type κ} {Q : A → Type μ}
    → ((a : A) → P a → Q a)
    → (xs : List A) → All P xs
    → All Q xs
All-imp f [] h = tt
All-imp f (x ∷ xs) h = (f x h.0, All-imp f xs h.1)

module _ {κ} {A : Type 0} (P : A → Type κ) where
  pub All-append : (xs ys : List A) → All P xs → All P ys → All P (xs ++ ys)
  All-append [] ys h k = k
  All-append (x ∷ xs) ys h k = (h.0, All-append xs ys h.1 k)

  pub All-append_left : (xs ys : List A) → All P (xs ++ ys) → All P xs
  All-append_left [] ys h = tt
  All-append_left (x ∷ xs) ys h = (h.0, All-append_left xs ys h.1)

  pub All-append_right : (xs ys : List A) → All P (xs ++ ys) → All P ys
  All-append_right [] ys h = h
  All-append_right (x ∷ xs) ys h = All-append_right xs ys h.1

pub All-both {κ μ} :
    {A : Type 0} (P : A → Type κ) (Q : A → Type μ) (xs : List A)
    → All P xs
    → All Q xs
    → All (λ a. P a × Q a) xs
All-both P Q [] h k = tt
All-both P Q (x ∷ xs) h k = ((h.0, k.0), All-both P Q xs h.1 k.1)

pub All-every {κ} : {A : Type 0} {P : A → Type κ} → ((a : A) → P a) → (xs : List A) → All P xs
All-every f [] = tt
All-every f (x ∷ xs) = (f x, All-every f xs)

-- What comes behind shares no channel with what stands before it.
pub Distinct-apart :
    (rs ys : List Request)
    → Distinct (rs ++ ys)
    → All (λ (y : Request). All (λ (r : Request). r.reply ≢ y.reply) rs) ys
Distinct-apart [] ys d = All-every (λ y. tt) ys
Distinct-apart (r ∷ rs) ys d =
    All-imp (λ (y : Request) both. ((λ e. both.0 (sym e)), both.1)) ys
      (All-both _ _ ys (All-append_right (λ (y : Request). y.reply ≢ r.reply) rs ys d.0)
        (Distinct-apart rs ys d.1))

pub Distinct-snoc :
    (rs : List Request) (r : Request)
    → Distinct rs
    → All (λ (q : Request). q.reply ≢ r.reply) rs
    → Distinct (rs ++ r ∷ [])
Distinct-snoc [] r d a = (tt, tt)
Distinct-snoc (q ∷ rs) r d a = (
  All-append (λ (x : Request). x.reply ≢ q.reply) rs (r ∷ []) d.0 ((λ e. a.0 (sym e)), tt),
  Distinct-snoc rs r d.1 a.1,
)

module _ {κ} (P : Request → Type κ) where
  pub All-remove_first : (id : String) (rs : List Request) → All P rs → All P (remove_first id rs)
  unfolding remove_first
  All-remove_first id [] h = tt
  All-remove_first id (r ∷ rs) h = elim (Bool-cases (str_eq r.request_id id)) [
    | inl e ↦ rw e h.1
    | inr e ↦ rw e (h.0, All-remove_first id rs h.1)
  ]

  -- Giving a request up behind those in flight.
  pub All-cancel :
      (id : String) (before rs : List Request)
      → All P (before ++ rs)
      → All P (before ++ remove_first id rs)
  All-cancel id before rs h =
      All-append P before (remove_first id rs) (All-append_left P before rs h)
        (All-remove_first id rs (All-append_right P before rs h))

Distinct-remove_first :
    (id : String) (rs : List Request) → Distinct rs → Distinct (remove_first id rs)
unfolding remove_first
Distinct-remove_first id [] d = tt
Distinct-remove_first id (r ∷ rs) d = elim (Bool-cases (str_eq r.request_id id)) [
  | inl e ↦ rw e d.1
  | inr e ↦
      rw e (All-remove_first (λ q. q.reply ≢ r.reply) id rs d.0, Distinct-remove_first id rs d.1)
]

pub Distinct-cancel :
    (id : String) (before rs : List Request)
    → Distinct (before ++ rs)
    → Distinct (before ++ remove_first id rs)
Distinct-cancel id (b ∷ before) rs d =
    (All-cancel (λ q. q.reply ≢ b.reply) id before rs d.0, Distinct-cancel id before rs d.1)
Distinct-cancel id [] rs d = Distinct-remove_first id rs d

pub Distinct-append_right : (xs ys : List Request) → Distinct (xs ++ ys) → Distinct ys
Distinct-append_right [] ys d = d
Distinct-append_right (x ∷ xs) ys d = Distinct-append_right xs ys d.1

pub write_ne {ℓ} : {A : Type ℓ} (m : ℕ → A) (p q : ℕ) (a : A) → p ≢ q → write m p a q ≡ m q
write_ne m p q a h = ground arith

pub write_self {ℓ} : {A : Type ℓ} (m : ℕ → A) (p : ℕ) (a : A) → write m p a p ≡ a
write_self m p a = ground arith

-- What holds of the new entry and of the entries elsewhere holds of every entry.
pub write_all {ℓ κ} :
    {A : Type ℓ} (P : ℕ → A → Type κ) (m : ℕ → A) (p : ℕ) (a : A)
    → P p a
    → ((q : ℕ) → q ≢ p → P q (m q))
    → (q : ℕ) → P q (write m p a q)
write_all P m p a here elsewhere q = elim (Bool-cases (q == p)) [
  | inl e ↦ rw e (rw (==→eq q p e) here)
  | inr e ↦ rw e (elsewhere q (λ x. ground arith))
]

pub send_empty :
    (h : Hub) (ch : ℕ) (reply : Reply)
    → h.replies ch ≡ none
    → send ch reply h ≡ ok (record h { replies = write h.replies ch (some reply) })
unfolding send
send_empty h ch reply e = rw (e, send)

still_empty :
    (h : Hub) (r : Request) (reply : Reply) (rs : List Request)
    → All (λ (q : Request). q.reply ≢ r.reply) rs
    → All (λ (q : Request). h.replies q.reply ≡ none) rs
    → All (λ (q : Request). write h.replies r.reply (some reply) q.reply ≡ none) rs
still_empty h r reply [] a e = tt
still_empty h r reply (q ∷ rs) a e = (
  write_ne h.replies r.reply q.reply (some reply) (λ x. a.0 (sym x)) ∙ e.0,
  still_empty h r reply rs a.1 e.1,
)

-- Sends to channels that are empty and distinct all succeed, and fill no channel but these.
pub send_all-ok :
    (rs : List Request) (reply : Reply) (h : Hub)
    → All (λ (r : Request). h.replies r.reply ≡ none) rs
    → Distinct rs
    → (after : ℕ → Option Reply) × (send_all rs reply h ≡ ok (record h { replies = after }))
      × ((ch : ℕ) → All (λ (r : Request). r.reply ≢ ch) rs → after ch ≡ h.replies ch)
unfolding send_all
send_all-ok [] reply h empty d = (h.replies, refl, λ ch a. refl)
send_all-ok (r ∷ rs) reply h empty d =
    let h1 : Hub = record h { replies = write h.replies r.reply (some reply) } in
    let still = still_empty h r reply rs d.0 empty.1 in
    let (after, sent, others) = send_all-ok rs reply h1 still d.1 in
    (
      after,
      rw (send_empty h r.reply reply empty.0) sent,
      λ ch a. others ch a.1 ∙ write_ne h.replies r.reply ch (some reply) a.0,
    )
