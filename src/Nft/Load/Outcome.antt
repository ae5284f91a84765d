-- ===== src/Nft/Load/Outcome.antt =====
-- Which table is in force after load_nft.
use qubes_snitch.Prelude.{
  ◌≡◌, refl, sym, Text, List, Bool, true, false, Option, some, Bool-cases, inl, inr,
}
use mathlib.Core.Path.{subst}
use qubes_snitch.Prelude.Dict.{Dict}
use qubes_snitch.Prelude.Result.{Result, ok, err}
use qubes_snitch.Packets.Ports.{Services}
use qubes_snitch.Policy.{Rules}
use qubes_snitch.Config.Resolve.{Answer}
use qubes_snitch.Nft.Lines.{Settings}
use qubes_snitch.Nft.Table.{render_nft, render_fail_closed_nft}
use qubes_snitch.Nft.Load.{
  Nft, Host, after_load, run_checked, checked_load, load_recovering, load_fail_closed_nft,
  recovered, install, load_nft,
}

abbrev host_of : Text → Option Text → Host
host_of file table = record { nft_file = file; table = table }

-- What is used of the disk and of nft: a text that is written is the contents afterwards, a text
-- that nft loads is the table afterwards, and the static table is one that it accepts and loads,
-- whatever table was there. Writes may fail.
pub record IsNft (nft : Nft) (static : Text) : Type 0 where
  pub writes : (t before : Text) → (nft.write t before).0 ≡ true → (nft.write t before).1 ≡ t
  pub installs :
      (t : Text) (before : Option Text)
      → (nft.load t before).0 ≡ true
      → (nft.load t before).1 ≡ some t
  pub accepts : nft.check static ≡ true
  pub loads : (before : Option Text) → (nft.load static before).0 ≡ true

-- The ways in which a load ends: the policy is in force; the call raised before it touched the
-- table; it raised and the static table is in force; or nft failed to load the policy, the static
-- table could not be written behind it, and the table is what nft left.
pub data Ends (nft : Nft) (before : Option Text) (policy : Result Text) (static : Text)
    : Host × Bool → Type 0 where
  loaded :
      (t : Text) (host : Host)
      → policy ≡ ok t
      → host.table ≡ some t
      → Ends nft before policy static (host, true)
  untouched : (host : Host) → host.table ≡ before → Ends nft before policy static (host, false)
  fail_closed :
      (host : Host) → host.table ≡ some static → Ends nft before policy static (host, false)
  unrecovered :
      (t : Text) (host : Host)
      → policy ≡ ok t
      → (nft.load t before).0 ≡ false
      → (nft.write static t).0 ≡ false
      → host.table ≡ (nft.load t before).1
      → Ends nft before policy static (host, false)

module _ (nft : Nft) (settings : Settings) (nft_table : Text)
    (v : IsNft nft (render_fail_closed_nft settings nft_table)) where
  abbrev static : Text
  static = render_fail_closed_nft settings nft_table

  -- The static table, unless it cannot be written, and then the table as it was.
  static_table :
      (file : Text) (table : Option Text)
      → ((nft.write static file).0 ≡ true
          → (load_fail_closed_nft nft settings nft_table (host_of file table)).0.table
            ≡ some static)
        × ((nft.write static file).0 ≡ false
            → (load_fail_closed_nft nft settings nft_table (host_of file table)).0.table ≡ table)
  unfolding load_fail_closed_nft checked_load run_checked
  static_table file table = (
    λ w. rw (w, v.writes static file w, v.accepts) (v.installs static table (v.loads table)),
    λ w. rw w refl,
  )

  recovered-Ends :
      (before : Option Text) (t : Text)
      → Ends nft before
          (ok t)
          static
          (recovered nft settings nft_table (after_load nft (host_of t before)))
  unfolding recovered
  recovered-Ends before t = elim (Bool-cases (nft.load t before).0) [
    | inl e ↦ rw e (loaded t _ refl (v.installs t before e))
    | inr e ↦ rw e (elim (Bool-cases (nft.write static t).0) [
      | inl w ↦ fail_closed _ ((static_table t (nft.load t before).1).0 w)
      | inr w ↦ unrecovered t _ refl e w ((static_table t (nft.load t before).1).1 w)
    ])
  ]

  checked-Ends :
      (before : Option Text) (t : Text)
      → Ends nft before
          (ok t)
          static
          (run_checked nft (load_recovering nft settings nft_table) (host_of t before, true))
  unfolding run_checked load_recovering
  checked-Ends before t = elim (Bool-cases (nft.check t)) [
    | inl e ↦ rw e (recovered-Ends before t)
    | inr e ↦ rw e (untouched _ refl)
  ]

  install-Ends :
      (policy : Result Text) (host : Host)
      → Ends nft host.table policy static (install nft settings nft_table policy host)
  unfolding install run_checked
  install-Ends (err e) host = untouched host refl
  install-Ends (ok t) host = elim (Bool-cases (nft.write t host.nft_file).0) [
    | inl w ↦ rw w (
        subst
          (λ (file : Text). Ends nft host.table (ok t) static (
            run_checked nft (load_recovering nft settings nft_table)
              (host_of file host.table, true)))
          (sym (v.writes t host.nft_file w)) (checked-Ends host.table t))
    | inr w ↦ rw w (untouched _ refl)
  ]

  -- If load_nft returns, the table in force is the rendered policy. If it raises, the table is the
  -- one before, or the static fail-closed one, or, where nft did not load the policy and then the
  -- static table could not be written to the file, what the failed nft left. What is used: a text
  -- that is written is in the file, a text that nft loads is the table afterwards, and nft accepts
  -- and loads the static table.
  pub load_nft-Ends :
      (services : Services) (digest : Text → Text) (ip_address : Text → Answer)
      (sources : Dict Text (List Text)) (rules : Rules) (host : Host)
      → Ends nft host.table
          (render_nft services digest ip_address settings nft_table sources rules)
          (render_fail_closed_nft settings nft_table)
          (load_nft nft services digest ip_address settings nft_table sources rules host)
  unfolding load_nft
  load_nft-Ends services digest ip_address sources rules host =
      install-Ends (render_nft services digest ip_address settings nft_table sources rules) host
