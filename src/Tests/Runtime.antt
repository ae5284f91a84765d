-- ===== src/Tests/Runtime.antt =====
-- A numbered disposable comes back with another address.
use qubes_snitch.Alerts.Lines.{LogKey-discrete}
use qubes_snitch.Prelude.Strings.{starts_with}
use qubes_snitch.Prelude.{
  drop, arith, ◌≡◌, ◌≢◌, refl, Text, Text_eq, Text-discrete, ℕ_discrete, codes, [], ◌∷◌, true,
}
use qubes_snitch.Prelude.Dict.{put, remove, get, has}
use qubes_snitch.Prelude.Result.{Result, ok}
use qubes_snitch.Request.{Bytes}
use qubes_snitch.Config.Names.{is_numbered_dispvm}
use qubes_snitch.Config.Sources.{Sources}
use qubes_snitch.Policy.Append.{RuleFile, no_rules}
use qubes_snitch.Queue.{remove_pending_for_source, empty}
use qubes_snitch.Queue.Invariant.{empty-IsQueue}
use qubes_snitch.Runtime.{Runtime, refresh_sources_and_nft}
use qubes_snitch.Runtime.Forgotten.{IsTidy, IsForgotten}
use qubes_snitch.Runtime.Refreshed.{refresh_sources_and_nft-IsForgotten}
use qubes_snitch.Tests.Policy.{allow_ten}

abbrev pub disp12 : Text
disp12 = codes "disp12"

abbrev pub sources_at : Text → Sources
sources_at ip = record {
  by_name = (disp12, ip ∷ []) ∷ [];
  by_ip = (ip, disp12) ∷ [];
  labels = (disp12, codes "red") ∷ [];
  display_by_ip = (ip, codes "disp12(default-dvm)") ∷ [];
}

abbrev old : Runtime
old = record {
  sources = sources_at (codes "10.138.0.3");
  rules = (disp12, record { ip = allow_ten ∷ []; dns = [] }) ∷ [];
  files = (disp12, codes "rules4:") ∷ [];
  queue = empty;
  hints = record {
    responses =
        (
          (disp12, 0x01010101),
          record {
            label = codes "one.one";
            qname = codes "one.one";
            qtype = codes "A";
            expires_at = 90;
          },
        )
        ∷ [];
    qnames = [];
  };
  last_refresh = 0;
}

abbrev fresh : Runtime
fresh = record {
  sources = sources_at (codes "10.138.0.4");
  rules = (disp12, no_rules) ∷ [];
  files = [];
  queue = empty;
  hints = record { responses = []; qnames = [] };
  last_refresh = 7;
}

abbrev pub read : Bytes → Result RuleFile
read raw = ok (record { rules4 = []; dns = [] })

abbrev pub load : Runtime → Result (Unit {0})
load rt = ok tt

refreshes :
    refresh_sources_and_nft read load 5 7 true (ok (sources_at (codes "10.138.0.4"))) old
    ≡ (fresh, ok true)
unfolding refresh_sources_and_nft get Text-discrete LogKey-discrete is_numbered_dispvm starts_with
    drop remove put remove_pending_for_source
refreshes = refl

pub numbered : is_numbered_dispvm disp12 ≡ true
unfolding is_numbered_dispvm starts_with ℕ_discrete drop
numbered = refl

known : has disp12 old.sources.by_name ≡ true
unfolding Text-discrete
known = refl

ruled : has disp12 old.rules ≡ true
unfolding Text-discrete
ruled = refl

moved : get disp12 (sources_at (codes "10.138.0.4")).by_name ≢ get disp12 old.sources.by_name
unfolding get Text-discrete
moved e = ground arith

old-IsTidy : IsTidy 5 old
old-IsTidy = record { rules = (refl, tt); files = (refl, tt); queue = empty-IsQueue 5 }

refresh_sources_and_nft-IsForgotten_example : IsForgotten disp12 fresh
refresh_sources_and_nft-IsForgotten_example =
    refresh_sources_and_nft-IsForgotten read load 5 disp12 5 7 true
      (sources_at (codes "10.138.0.4")) old fresh old-IsTidy numbered known ruled moved refreshes
