-- ===== src/Blocked.antt =====
-- The log of peers that were turned away (packages/mbrc-core/src/server/blocked.rs), newest first.
-- The time is an argument, and an entry keeps the address and the reason as values, not as text.
mod Tests
use mbrc_plugin.Base.{
  ℕ, zero, suc, ◌+◌, ◌-◌, ◌≤◌, true, false, ◌≡◌, refl, sym, ap, ◌∙◌, List, [], ◌∷◌, arith, length,
  take, ltb, if◌then◌else◌, Bool-cases, inl, inr,
}
use mbrc_plugin.Registry.{IpAddr}

abbrev pub max_entries : ℕ
max_entries = 50

pub data BlockReason : Type 0 where
  address_not_allowed : BlockReason
  per_ip_cap : BlockReason
  per_client_cap : BlockReason

pub record BlockedConnection : Type 0 where
  pub unix_ms : ℕ
  pub ip : IpAddr
  pub port : ℕ
  pub reason : BlockReason

-- `pop_back`
unfoldable pub pop_back : List BlockedConnection → List BlockedConnection
pop_back [] = []
pop_back (e ∷ []) = []
pop_back (e ∷ f ∷ es) = e ∷ pop_back (f ∷ es)

-- `while q.len() > MAX_ENTRIES`, on fuel.
unfoldable pub pop_while : (fuel : ℕ) → List BlockedConnection → List BlockedConnection
unfolding pop_back
pop_while zero q = q
pop_while (suc n) q =
    let rest = pop_while n (pop_back q) in if ltb max_entries (length q) then rest else q

unfoldable pub record_entry : BlockedConnection → List BlockedConnection → List BlockedConnection
unfolding pop_while
record_entry entry q = let pushed = entry ∷ q in pop_while (length pushed) pushed

unfoldable pub record_all : List BlockedConnection → List BlockedConnection → List BlockedConnection
unfolding record_entry
record_all [] q = q
record_all (e ∷ es) q = record_all es (record_entry e q)

length-pop_back :
    (e : BlockedConnection) (q : List BlockedConnection) → length (pop_back (e ∷ q)) ≡ length q
unfolding pop_back
length-pop_back e [] = refl
length-pop_back e (f ∷ q) = omega (arith, length-pop_back f q)

take-pop_back :
    (n : ℕ) (q : List BlockedConnection) → n + 1 ≤ length q → take n (pop_back q) ≡ take n q
unfolding pop_back
take-pop_back zero q h = refl
take-pop_back (suc n) [] h = ground (arith, h)
take-pop_back (suc n) (e ∷ []) h = ground (arith, h)
take-pop_back (suc n) (e ∷ f ∷ q) h = ground (arith, take-pop_back n (f ∷ q))

take_whole : (n : ℕ) (q : List BlockedConnection) → length q ≤ n → take n q ≡ q
take_whole zero [] h = refl
take_whole (suc n) [] h = refl
take_whole zero (e ∷ q) h = ground (arith, h)
take_whole (suc n) (e ∷ q) h = ground (arith, take_whole n q)

pop_while_zero : (q : List BlockedConnection) → pop_while 0 q ≡ q
unfolding pop_while
pop_while_zero q = refl

at_least : (n : ℕ) → ltb max_entries n ≡ true → max_entries + 1 ≤ n
at_least n h = ground (arith, h)

at_most : (n : ℕ) → ltb max_entries n ≡ false → n ≤ max_entries
at_most n h = ground (arith, h)

take-take : (n : ℕ) (q : List BlockedConnection) → take n (take n q) ≡ take n q
take-take zero q = refl
take-take (suc n) [] = refl
take-take (suc n) (e ∷ q) = ground (arith, take-take n q)

take_less : (n : ℕ) (q : List BlockedConnection) → take n q ≡ take n (take (suc n) q)
take_less zero q = refl
take_less (suc n) [] = refl
take_less (suc n) (e ∷ q) = ap (λ (l : List BlockedConnection). e ∷ l) (take_less n q)

take-cons :
    (n : ℕ) (e : BlockedConnection) (q r : List BlockedConnection)
    → take n q ≡ take n r
    → take n (e ∷ q) ≡ take n (e ∷ r)
take-cons zero e q r h = refl
take-cons (suc n) e q r h =
    ap (λ (l : List BlockedConnection). e ∷ l)
      (take_less n q ∙ ap (λ (l : List BlockedConnection). take n l) h ∙ sym (take_less n r))

pop_while_if :
    (n : ℕ) (q : List BlockedConnection)
    → pop_while (suc n) q ≡ (if ltb max_entries (length q) then pop_while n (pop_back q) else q)
unfolding pop_while
pop_while_if n q = refl

pop_while_lem :
    (n : ℕ) (q : List BlockedConnection) → length q ≤ n → pop_while n q ≡ take max_entries q
pop_while_lem zero q h = pop_while_zero q ∙ sym (take_whole max_entries q (omega (arith, h)))
pop_while_lem (suc n) [] h = pop_while_if n []
pop_while_lem (suc n) (e ∷ q) h = elim (Bool-cases (ltb max_entries (length (e ∷ q)))) [
  | inl over ↦
      pop_while_if n (e ∷ q)
      ∙ rw over (
          pop_while_lem n (pop_back (e ∷ q)) (omega (arith, h, length-pop_back e q))
          ∙ take-pop_back max_entries (e ∷ q) (at_least (length (e ∷ q)) over))
  | inr under ↦
      pop_while_if n (e ∷ q)
      ∙ rw under (sym (take_whole max_entries (e ∷ q) (at_most (length (e ∷ q)) under)))
]

record_entry_lem :
    (e : BlockedConnection) (q : List BlockedConnection)
    → record_entry e q ≡ take max_entries (e ∷ q)
unfolding record_entry
record_entry_lem e q = pop_while_lem (length (e ∷ q)) (e ∷ q) (omega arith)

abbrev pub onto : List BlockedConnection → List BlockedConnection → List BlockedConnection
onto [] q = q
onto (e ∷ es) q = onto es (e ∷ q)

take-onto :
    (n : ℕ) (es q r : List BlockedConnection)
    → take n q ≡ take n r
    → take n (onto es q) ≡ take n (onto es r)
take-onto n [] q r h = h
take-onto n (e ∷ es) q r h = take-onto n es (e ∷ q) (e ∷ r) (take-cons n e q r h)

newest_lem :
    (es q : List BlockedConnection)
    → take max_entries (record_all es q) ≡ take max_entries (onto es q)
unfolding record_all
newest_lem [] q = refl
newest_lem (e ∷ es) q =
    newest_lem es (record_entry e q)
    ∙ take-onto max_entries es (record_entry e q) (e ∷ q) (
        ap (λ (r : List BlockedConnection). take max_entries r) (record_entry_lem e q)
        ∙ take-take max_entries (e ∷ q))

within_limit :
    (es q : List BlockedConnection)
    → take max_entries q ≡ q
    → take max_entries (record_all es q) ≡ record_all es q
unfolding record_all
within_limit [] q h = h
within_limit (e ∷ es) q h =
    within_limit es (record_entry e q) (rw (record_entry_lem e q) (take-take max_entries (e ∷ q)))

-- Whatever is recorded on an empty log, it is then the newest fifty entries, newest first.
pub record_all-newest : (es : List BlockedConnection) → record_all es [] ≡ take 50 (onto es [])
record_all-newest es = sym (within_limit es [] refl) ∙ newest_lem es []
