-- ===== src/Dom0/Chain.antt =====
-- The walk from a qube through its network qubes in sources.py of dom0.
use qubes_snitch.Prelude.{
  ℕ, zero, suc, ◌+◌, ◌≤◌, ◌<◌, ◌≡◌, ◌≢◌, ◌↔◌, refl, sym, ap, ◌∙◌, ◌⊎◌, inl, inr, Text, Text_eq,
  Text-discrete, codes, List, [], ◌∷◌, Bool, true, false, not, Option, none, some, length, ◌==◌,
  ==_refl, if◌then◌else◌, arith, Bool-cases, Option-cases,
}
use qubes_snitch.Prelude.Dict.{Dict, keys, get, has, has_key, length-keys, get-none_of_has}
use qubes_snitch.Dom0.{goes_on, follows, vm_uses_snitch}

-- A name of a qube.
abbrev pub IsName : Text → Type 0
IsName vm = (vm ≢ []) × (vm ≢ codes "-")

follows-none :
    (snitch_vm : Text) (netvms : Dict Text Text) (fuel : ℕ) (seen : List Text)
    → 0 < fuel
    → follows snitch_vm netvms fuel seen none ≡ some false
unfolding follows
follows-none snitch_vm netvms zero seen h = absurd (omega arith)
follows-none snitch_vm netvms (suc fuel) seen h = refl

follows-none_false :
    (snitch_vm : Text) (netvms : Dict Text Text) (fuel : ℕ) (seen : List Text)
    → follows snitch_vm netvms fuel seen none ≢ some true
unfolding follows
follows-none_false snitch_vm netvms zero seen = λ h. cc
follows-none_false snitch_vm netvms (suc fuel) seen = λ h. cc

-- The loop ends in a branch, or goes on where the rest ends.
branch_total :
    (goes found : Bool) (rest : Option Bool)
    → (goes ≡ true → (b : Bool) × (rest ≡ some b))
    → (b : Bool) × ((if not goes then some false else if found then some true else rest) ≡ some b)
branch_total false found rest h = (false, refl)
branch_total true true rest h = (true, refl)
branch_total true false rest h = h refl

has_of_get :
    (vm next : Text) (netvms : Dict Text Text) → get vm netvms ≡ some next → has vm netvms ≡ true
has_of_get vm next netvms g = elim (Bool-cases (has vm netvms)) [
  | inl t ↦ t
  | inr f ↦ absurd (clash (sym (get-none_of_has vm netvms f) ∙ g))
]
  where
    clash : none ≡ some next → ⊥
    clash q = cc

module _ (snitch_vm : Text) (netvms : Dict Text Text) where
  -- The firewall is on the way from a qube to the net: the qube is the firewall, or the firewall
  -- is on the way from its network qube.
  pub data Uses : Text → Type 0 where
    here : (vm : Text) → IsName vm → vm ≡ snitch_vm → Uses vm
    there : (vm next : Text) → IsName vm → get vm netvms ≡ some next → Uses next → Uses vm

  -- Names that were met.
  unseen : List Text → List Text → ℕ
  unseen seen [] = 0
  unseen seen (k ∷ ks) = (if has_key k seen then 0 else 1) + unseen seen ks

  unseen-cons : (vm : Text) (seen ks : List Text) → unseen (vm ∷ seen) ks ≤ unseen seen ks
  unfolding unseen
  unseen-cons vm seen [] = omega arith
  unseen-cons vm seen (k ∷ ks) = ground (arith, unseen-cons vm seen ks)

  unseen-new :
      (vm : Text) (seen ks : List Text)
      → has_key vm seen ≡ false
      → has_key vm ks ≡ true
      → unseen (vm ∷ seen) ks < unseen seen ks
  unfolding unseen
  unseen-new vm seen [] n h = absurd (cc)
  unseen-new vm seen (k ∷ ks) n h = ground (arith, unseen-new vm seen ks n, unseen-cons vm seen ks)

  unseen-nil : (ks : List Text) → unseen [] ks ≡ length ks
  unfolding unseen
  unseen-nil [] = refl
  unseen-nil (k ∷ ks) = omega (arith, unseen-nil ks)

  -- With two rounds more than the names that are left, the loop ends.
  follows_total :
      (fuel : ℕ) (seen : List Text) (vm : Text)
      → suc (unseen seen (keys netvms)) < fuel
      → (b : Bool) × (follows snitch_vm netvms fuel seen (some vm) ≡ some b)
  unfolding follows
  follows_total zero seen vm h = absurd (omega arith)
  follows_total (suc fuel) seen vm h = branch_total (goes_on seen vm) (vm == snitch_vm) _ (λ goes.
      elim (Option-cases (get vm netvms)) [
        | inl n ↦ (false, rw n (follows-none snitch_vm netvms fuel (vm ∷ seen) (omega arith)))
        | inr (next, g) ↦
            let (b, q) = follows_total fuel (vm ∷ seen) next (
              omega (
                arith,
                unseen-new vm seen (keys netvms) (ground arith) (has_of_get vm next netvms g),
              )) in
            (b, rw g q)
      ])

  -- Names that are not the firewall and whose network qubes are among them lead nowhere.
  Closed : List Text → Text → Type 0
  Closed seen last =
      (s : Text)
      → has_key s seen ≡ true
      → (s ≢ snitch_vm)
        × ((next : Text) → get s netvms ≡ some next → (has_key next seen ≡ true) ⊎ (next ≡ last))

  circle-not :
      (seen : List Text) (last vm : Text)
      → Closed seen last
      → has_key last seen ≡ true
      → has_key vm seen ≡ true
      → ¬ Uses vm
  unfolding Closed
  circle-not seen last _ closed l v (here vm n e) = (closed vm v).0 e
  circle-not seen last _ closed l v (there vm next n g u) = elim ((closed vm v).1 next g) [
    | inl k ↦ circle-not seen last next closed l k u
    | inr e ↦ circle-not seen last next closed l (rw e l) u
  ]

  follows_sound :
      (fuel : ℕ) (seen : List Text) (vm : Text)
      → follows snitch_vm netvms fuel seen (some vm) ≡ some true
      → Uses vm
  unfolding follows
  follows_sound zero seen vm h = absurd (cc)
  follows_sound (suc fuel) seen vm h = elim (Text-discrete vm snitch_vm) [
    | yes e ↦ here vm (ground arith, ground arith) e
    | no n ↦ elim (Option-cases (get vm netvms)) [
      | inl g ↦ absurd (ground (arith, follows-none_false snitch_vm netvms fuel (vm ∷ seen)))
      | inr (next, g) ↦
          there vm next (ground arith, ground arith) g
            (follows_sound fuel (vm ∷ seen) next (ground arith))
    ]
  ]

  Closed-cons :
      (seen : List Text) (vm next : Text)
      → vm ≢ snitch_vm
      → get vm netvms ≡ some next
      → Closed seen vm
      → Closed (vm ∷ seen) next
  unfolding Closed
  Closed-cons seen vm next n g closed s h = elim (Text-discrete vm s) [
    | yes e ↦ (
      λ q. n (e ∙ q),
      λ next' g'. inr (some-next (sym g' ∙ (ap (λ (t : Text). get t netvms) (sym e) ∙ g))),
    )
    | no m ↦
        let (other, follow) = closed s (ground arith) in
        (
          other,
          λ next' g'. elim (follow next' g') [
            | inl k ↦ inl (ground arith)
            | inr e ↦ inl (rw (e, ==_refl vm) refl)
          ],
        )
  ]
    where
      some-next : {a b : Text} → some a ≡ some b → a ≡ b
      some-next q = cc

  follows-here :
      (fuel : ℕ) (seen : List Text) (vm : Text) (b : Bool)
      → Closed seen vm
      → IsName vm
      → vm ≡ snitch_vm
      → follows snitch_vm netvms (suc fuel) seen (some vm) ≡ some b
      → b ≡ true
  unfolding follows Closed
  follows-here fuel seen vm b closed n e h = elim (Bool-cases (has_key vm seen)) [
    | inl t ↦ absurd ((closed vm t).0 e)
    | inr f ↦ ground (arith, n.0, n.1)
  ]

  follows_complete :
      (fuel : ℕ) (seen : List Text) (vm : Text) (b : Bool)
      → Closed seen vm
      → Uses vm
      → follows snitch_vm netvms fuel seen (some vm) ≡ some b
      → b ≡ true
  unfolding follows
  follows_complete zero seen vm b closed u h = absurd (cc)
  follows_complete (suc fuel) seen _ b closed (here vm n e) h =
      follows-here fuel seen vm b closed n e h
  follows_complete (suc fuel) seen _ b closed (there vm next n g u) h =
      elim (Text-discrete vm snitch_vm) [
        | yes e ↦ follows-here fuel seen vm b closed n e h
        | no m ↦ elim (Bool-cases (has_key vm seen)) [
          | inl t ↦ absurd (circle-not seen vm vm closed t t (there vm next n g u))
          | inr f ↦
              follows_complete fuel (vm ∷ seen) next b (Closed-cons seen vm next m g closed) u
                (ground (arith, n.0, n.1))
        ]
      ]

  nothing-Closed : (vm : Text) → Closed [] vm
  unfolding Closed
  nothing-Closed vm s h = absurd (cc)

  -- For every table of network qubes, with circles or without, the walk from a qube ends within
  -- two rounds more than there are qubes, and it answers that the qube uses the firewall exactly
  -- when the firewall is on the way from the qube through network qubes with names.
  pub vm_uses_snitch-Uses :
      (name : Text)
      → (b : Bool) × (vm_uses_snitch snitch_vm name netvms ≡ some b) × ((b ≡ true) ↔ Uses name)
  unfolding vm_uses_snitch
  vm_uses_snitch-Uses name =
      let rounds = suc (suc (length netvms)) in
      let (b, ends) =
        follows_total rounds [] name
          (omega (arith, unseen-nil (keys netvms), length-keys netvms)) in
      (
        b,
        ends,
        (
          λ t. follows_sound rounds [] name (ends ∙ ap some t),
          λ u. follows_complete rounds [] name b (nothing-Closed name) u ends,
        ),
      )
