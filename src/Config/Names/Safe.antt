-- ===== src/Config/Names/Safe.antt =====
-- The names that a source can get.
use qubes_snitch.Prelude.{
  ◌≡◌, Text, Text_eq, codes, [], ◌∷◌, ◌++◌, true, ◌||◌, Option, some, ◌==◌, ℕ_eq, if◌then◌else◌,
  arith, Bool-cases, inl, inr,
}
use qubes_snitch.Prelude.Result.{
  Result, ok, system_exit, require, require-true, >>=-eq-ok, ok-injective, ◌>>◌,
}
use qubes_snitch.Dns.Names.{last}
use qubes_snitch.Config.Names.{
  is_source_name, validate_source_name, validate_qubes_vm_name, dispvm, dispvm_policy_prefix,
  default_dvm_template, generic_source, dispvm_policy_source,
}

pub validate_source_name-is_source_name :
    (t : Text) {u : Unit {0}} → validate_source_name t ≡ ok u → is_source_name t ≡ true
unfolding validate_source_name
validate_source_name-is_source_name t h =
    let (u, first, rest) = >>=-eq-ok (require (is_source_name t) system_exit) _ h in
    require-true (is_source_name t) system_exit first

prefixed : (t : Text) → is_source_name t ≡ true → is_source_name (dispvm_policy_prefix ++ t) ≡ true
unfolding is_source_name last
prefixed [] h = absurd (cc)
prefixed (c ∷ s) h = ground arith

-- The part of dispvm_policy_source for a disposable, after the validation of its template.
abbrev based : Text → Text → Text → Result (Option Text)
based source template default =
    if template == default || template == default_dvm_template
    then ok (generic_source source)
    else ok (some (dispvm_policy_prefix ++ template))

based-is_source_name :
    (source template default x : Text)
    → is_source_name source ≡ true
    → is_source_name template ≡ true
    → based source template default ≡ ok (some x)
    → is_source_name x ≡ true
unfolding generic_source
based-is_source_name source template default x h k e = ground (arith, prefixed template)

template-is_source_name :
    (source template default x : Text)
    → is_source_name source ≡ true
    → (do
      validate_source_name template
      validate_qubes_vm_name template (codes "TemplateVM")
      based source template default)
      ≡ ok (some x)
    → is_source_name x ≡ true
template-is_source_name source template default x h e =
    let (u, named, e1) = >>=-eq-ok (validate_source_name template) _ e in
    let (w, clean, e2) =
      >>=-eq-ok (validate_qubes_vm_name template (codes "TemplateVM"))
        (λ u. based source template default) e1 in
    based-is_source_name source template default x h
      (validate_source_name-is_source_name template named) e2

-- A row whose own name is safe gets a source with a safe name.
pub dispvm_policy_source-is_source_name :
    (source vm_class template default x : Text)
    → is_source_name source ≡ true
    → dispvm_policy_source source vm_class template default ≡ ok (some x)
    → is_source_name x ≡ true
unfolding dispvm_policy_source
dispvm_policy_source-is_source_name source vm_class template default x h e =
    elim (Bool-cases (vm_class == dispvm)) [
      | inl d ↦ template-is_source_name source template default x h (rw d at e)
      | inr n ↦ same (ok-injective (rw n at e))
    ]
  where
    same : some source ≡ some x → is_source_name x ≡ true
    same q = ground arith
