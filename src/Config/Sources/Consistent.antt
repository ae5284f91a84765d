-- ===== src/Config/Sources/Consistent.antt =====
-- The four maps agree, and each address has one source.
use qubes_snitch.Prelude.{
  ◌≡◌, refl, ap, ◌∙◌, Text, Text-discrete, List, [], ◌∷◌, ◌++◌, ltb, Text_eq, Bool, true, false,
  ◌&&◌, ◌||◌, not, Option, none, some, any, ◌==◌, arith, Option-cases, Bool-cases, inl, inr,
}
use mathlib.Core.Path.{subst}
use qubes_snitch.Prelude.Dict.{get, has, get-put, has-put, get-none_of_has}
use qubes_snitch.Prelude.Strings.{split, is_blank, lines}
use qubes_snitch.Prelude.Result.{ok, system_exit, require, require-true, >>=-eq-ok, ok-injective}
use qubes_snitch.Config.Names.{
  is_source_name, validate_source_name, validate_qubes_vm_name, dispvm, dispvm_policy_source,
}
use qubes_snitch.Config.Resolve.{Answer}
use qubes_snitch.Config.Names.Safe.{
  validate_source_name-is_source_name, dispvm_policy_source-is_source_name,
}
use qubes_snitch.Config.Sources.{
  vm_classes, conflicts, Sources, no_sources, Row, row_of, or_none_yet, conflicts, added,
  add_source, version_4, add_row, add_line, add_lines, parse_sources_output, is_missing,
}

abbrev pub is_at : Option Text → Text → Bool
is_at none source = false
is_at (some s) source = s == source

abbrev pub owns : Text → Text → Sources → Bool
owns source ip s = any (λ a. a == ip) (or_none_yet (get source s.by_name))

-- An address points to a source exactly when the source lists it, so no two sources list the same
-- one; every source has a label and a name that is safe as that of a file, and every address is
-- shown under some name.
pub record IsConsistent (s : Sources) : Type 0 where
  pub agrees : (ip source : Text) → is_at (get ip s.by_ip) source ≡ owns source ip s
  pub labelled : (source : Text) → has source s.labels ≡ has source s.by_name
  pub displayed : (ip : Text) → has ip s.display_by_ip ≡ has ip s.by_ip
  pub named : (source : Text) → has source s.by_name ≡ true → is_source_name source ≡ true

no_sources-IsConsistent : IsConsistent no_sources
unfolding get
no_sources-IsConsistent = record {
  agrees = λ ip source. refl;
  labelled = λ source. refl;
  displayed = λ ip. refl;
  named = λ source h. absurd (nothing h);
}
  where
    nothing : false ≡ true → ⊥
    nothing h = cc

any-snoc :
    (ip x : Text) (ips : List Text)
    → any (λ a. a == ip) (ips ++ x ∷ []) ≡ (any (λ a. a == ip) ips || x == ip)
any-snoc ip x [] = ground arith
any-snoc ip x (y ∷ ips) = ground (arith, any-snoc ip x ips)

module _ (source : Text) (row : Row) (s : Sources) (c : IsConsistent s) where
  agrees_added :
      has row.ip s.by_ip ≡ false
      → (ip x : Text) → is_at (get ip (added source row s).by_ip) x ≡ owns x ip (added source row s)
  unfolding added
  agrees_added new ip x =
      rw (get-put row.ip ip source s.by_ip, get-put source x _ s.by_name)
        (elim (Option-cases (get source s.by_name)) [
          | inl e ↦ rw e (ground (arith, c.agrees ip x, c.agrees ip source, none_of new))
          | inr (ips, e) ↦ rw e (
              ground
                (arith, c.agrees ip x, c.agrees ip source, none_of new, any-snoc ip row.ip ips))
        ])
    where
      none_of : has row.ip s.by_ip ≡ false → get row.ip s.by_ip ≡ none
      none_of h = get-none_of_has row.ip s.by_ip h

  named_added :
      is_source_name source ≡ true
      → (x : Text) → has x (added source row s).by_name ≡ true
      → is_source_name x ≡ true
  unfolding added
  named_added name x h = elim (Text-discrete source x) [
    | yes e ↦ rw (← e) name
    | no e ↦ c.named x (
        ground
          (arith, has-put source x (or_none_yet (get source s.by_name) ++ row.ip ∷ []) s.by_name))
  ]

  added-IsConsistent :
      has row.ip s.by_ip ≡ false → is_source_name source ≡ true → IsConsistent (added source row s)
  added-IsConsistent new name = record {
    agrees = agrees_added new;
    labelled =
        unfold added in
        λ x.
          rw (has-put source x row.label s.labels, has-put source x _ s.by_name, c.labelled x) refl;
    displayed =
        unfold added in
        λ ip.
          rw (has-put row.ip ip _ s.display_by_ip, has-put row.ip ip source s.by_ip, c.displayed ip)
            refl;
    named = named_added name;
  }

module _ (ip_address : Text → Answer) (default : Text) where
  add_source-IsConsistent :
      (o : Option Text) (row : Row) (s t : Sources)
      → ((x : Text) → o ≡ some x → is_source_name x ≡ true)
      → IsConsistent s
      → add_source ip_address default o row s ≡ ok t
      → IsConsistent t
  unfolding add_source
  add_source-IsConsistent none row s t name c h = subst IsConsistent (ok-injective h) c
  add_source-IsConsistent (some x) row s t name c h =
      let (_, _, h1) = >>=-eq-ok (version_4 (ip_address row.ip)) _ h in
      let (_, new, h2) = >>=-eq-ok (require (not (has row.ip s.by_ip)) system_exit) _ h1 in
      let (_, _, h3) =
        >>=-eq-ok (require (not (conflicts (get x s.labels) row.label)) system_exit) _ h2 in
      subst IsConsistent (ok-injective h3)
        (added-IsConsistent x row s c (fresh (require-true _ _ new)) (name x refl))
    where
      fresh : not (has row.ip s.by_ip) ≡ true → has row.ip s.by_ip ≡ false
      fresh k = ground arith

  add_row-IsConsistent :
      (row : Row) (s t : Sources)
      → IsConsistent s
      → add_row ip_address default row s ≡ ok t
      → IsConsistent t
  unfolding add_row
  add_row-IsConsistent row s t c h = elim (Bool-cases (is_missing row.ip)) [
    | inl e ↦ subst IsConsistent (ok-injective (rw e at h)) c
    | inr e ↦
        let (_, valid, h1) = >>=-eq-ok (validate_source_name row.source) _ (rw e at h) in
        let (_, _, h2) = >>=-eq-ok (validate_qubes_vm_name row.source row.vm_class) _ h1 in
        let (_, _, h3) =
          >>=-eq-ok (require (any (λ c'. c' == row.vm_class) vm_classes) system_exit) _ h2 in
        let (_, _, h4) =
          >>=-eq-ok (require (not (row.vm_class == dispvm && is_missing row.template)) system_exit)
            _ h3 in
        let (o, policy, h5) =
          >>=-eq-ok (dispvm_policy_source row.source row.vm_class row.template default) _ h4 in
        add_source-IsConsistent o row s t
          (λ x k.
            dispvm_policy_source-is_source_name row.source row.vm_class row.template default x
              (validate_source_name-is_source_name row.source valid) (policy ∙ ap ok k))
          c h5
  ]

  add_line-IsConsistent :
      (line : Text) (s t : Sources)
      → IsConsistent s
      → add_line ip_address default line s ≡ ok t
      → IsConsistent t
  unfolding add_line
  add_line-IsConsistent line s t c h = elim (Bool-cases (is_blank line)) [
    | inl e ↦ subst IsConsistent (ok-injective (rw e at h)) c
    | inr e ↦
        let (row, _, h1) = >>=-eq-ok (row_of (split b'|' line)) _ (rw e at h) in
        add_row-IsConsistent row s t c h1
  ]

  add_lines-IsConsistent :
      (rest : List Text) (s t : Sources)
      → IsConsistent s
      → add_lines ip_address default rest s ≡ ok t
      → IsConsistent t
  unfolding add_lines
  add_lines-IsConsistent [] s t c h = subst IsConsistent (ok-injective h) c
  add_lines-IsConsistent (line ∷ rest) s t c h =
      let (m, first, h1) = >>=-eq-ok (add_line ip_address default line s) _ h in
      add_lines-IsConsistent rest m t (add_line-IsConsistent line s m c first) h1

  -- The table that dom0 sends becomes, where it is accepted, maps that agree: an address points to
  -- a source exactly when the source lists it, so no address has two sources; exactly the sources
  -- with addresses have labels, exactly the addresses with sources have names to show, and the name
  -- of each source fits SOURCE_NAME_RE, also that of a source for all the disposables of a template.
  pub parse_sources_output-IsConsistent :
      (table : Text) (s : Sources)
      → parse_sources_output ip_address default table ≡ ok s
      → IsConsistent s
  unfolding parse_sources_output
  parse_sources_output-IsConsistent table s h =
      let (_, _, h1) = >>=-eq-ok (require (not (any (λ c. ltb 127 c) table)) system_exit) _ h in
      add_lines-IsConsistent (lines table) no_sources s no_sources-IsConsistent h1
