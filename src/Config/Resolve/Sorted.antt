-- ===== src/Config/Resolve/Sorted.antt =====
-- The resolved addresses are in strictly increasing order, and are those of the answers.
use qubes_snitch.Prelude.{
  ℕ, ◌<◌, ◌≡◌, ◌≢◌, ◌||◌, refl, Text, List, [], ◌∷◌, Bool, false, any, some, ◌==◌, ℕ_eq, arith,
}
use qubes_snitch.Prelude.Result.{ok, >>=-eq-ok}
use qubes_snitch.Request.{Ip}
use qubes_snitch.Config.Resolve.{
  Answer, v4, v6, unreadable, Resolver, insert, sorted_set, ipv4_answers, some_ips,
  resolved_answers, resolve_dest_dns,
}

-- Each address is above n and above the one before it.
abbrev pub IsAbove : ℕ → List Ip → Type 0
IsAbove n [] = Unit
IsAbove n (a ∷ l) = (n < a) × IsAbove a l

abbrev pub IsIncreasing : List Ip → Type 0
IsIncreasing [] = Unit
IsIncreasing (a ∷ l) = IsAbove a l

abbrev pub has : Ip → List Ip → Bool
has a = any (λ b. b == a)

insert-IsAbove : (n a : ℕ) (l : List Ip) → n < a → IsAbove n l → IsAbove n (insert a l)
unfolding insert
insert-IsAbove n a [] h k = (h, tt)
insert-IsAbove n a (b ∷ l) h k = ground (arith, insert-IsAbove b a l)

insert-IsIncreasing : (a : ℕ) (l : List Ip) → IsIncreasing l → IsIncreasing (insert a l)
unfolding insert
insert-IsIncreasing a [] k = tt
insert-IsIncreasing a (b ∷ l) k = ground (arith, insert-IsAbove b a l)

sorted_set-IsIncreasing : (l : List Ip) → IsIncreasing (sorted_set l)
unfolding sorted_set
sorted_set-IsIncreasing [] = tt
sorted_set-IsIncreasing (a ∷ l) = insert-IsIncreasing a (sorted_set l) (sorted_set-IsIncreasing l)

has-insert : (x a : Ip) (l : List Ip) → has x (insert a l) ≡ (a == x || has x l)
unfolding insert
has-insert x a [] = refl
has-insert x a (b ∷ l) = ground (arith, has-insert x a l)

has-sorted_set : (x : Ip) (l : List Ip) → has x (sorted_set l) ≡ has x l
unfolding sorted_set
has-sorted_set x [] = refl
has-sorted_set x (a ∷ l) = ground (arith, has-insert x a (sorted_set l), has-sorted_set x l)

-- The answer gives the address.
abbrev pub is_answer : Ip → Answer → Bool
is_answer x (v4 a) = a == x
is_answer x v6 = false
is_answer x unreadable = false

ipv4_answers-has :
    (x : Ip) (answers : List Answer) (ips : List Ip)
    → ipv4_answers answers ≡ ok ips
    → has x ips ≡ any (is_answer x) answers
unfolding ipv4_answers
ipv4_answers-has x [] ips h = ground arith
ipv4_answers-has x (v4 a ∷ answers) ips h =
    let (rest, e, k) = >>=-eq-ok (ipv4_answers answers) _ h in
    let same : a ∷ rest ≡ ips = cc in rw (← same, ipv4_answers-has x answers rest e)
ipv4_answers-has x (v6 ∷ answers) ips h = absurd (cc)
ipv4_answers-has x (unreadable ∷ answers) ips h = absurd (cc)

some_ips-eq : (l ips : List Ip) → some_ips l ≡ ok ips → (ips ≡ l) × (ips ≢ [])
unfolding some_ips
some_ips-eq [] ips h = absurd (cc)
some_ips-eq (a ∷ l) ips h = ground arith

-- A name that resolves gives a nonempty list of addresses, in strictly increasing order, so
-- without repetition, and they are exactly the addresses that the resolver answered. It is stated
-- where the resolver answered and the call returned.
pub resolve_dest_dns-IsIncreasing :
    (resolver : Resolver) (name : Text) (answers : List Answer) (ips : List Ip)
    → resolver name ≡ some answers
    → resolve_dest_dns resolver name ≡ ok ips
    → IsIncreasing ips × (ips ≢ []) × ((x : Ip) → has x ips ≡ any (is_answer x) answers)
unfolding resolve_dest_dns
resolve_dest_dns-IsIncreasing resolver name answers ips e h =
    let (l, got, k) = >>=-eq-ok (ipv4_answers answers) _ (rw (e, resolved_answers) at h) in
    let (same, some_) = some_ips-eq (sorted_set l) ips k in
    (
      rw same (sorted_set-IsIncreasing l),
      some_,
      λ x. rw (same, has-sorted_set x l) (ipv4_answers-has x answers l got),
    )
