-- ===== src/Nft/Load.antt =====
-- load_nft and load_fail_closed_nft of qubes_snitch/nft.py.
pub mod Outcome
use qubes_snitch.Prelude.{ℕ, Text, List, Bool, true, false, Option, some, if◌then◌else◌}
use qubes_snitch.Prelude.Dict.{Dict}
use qubes_snitch.Prelude.Result.{Result, ok, err}
use qubes_snitch.Packets.Ports.{Services}
use qubes_snitch.Policy.{Rules}
use qubes_snitch.Config.Resolve.{Answer}
use qubes_snitch.Nft.Lines.{Settings}
use qubes_snitch.Nft.Table.{render_nft, render_fail_closed_nft}

-- The disk and the command nft: whether write_text of a text over the contents of NFT_FILE succeeds
-- (an OSError otherwise), with the contents afterwards; whether `nft -c -f` accepts a text; and
-- whether `nft -f` succeeds, with the table afterwards, where the table before is given. The command
-- is installed, so that it can be started.
pub record Nft : Type 0 where
  pub write : Text → Text → Bool × Text
  pub check : Text → Bool
  pub load : Text → Option Text → Bool × Option Text

-- NFT_FILE, and the table that is in force.
pub record Host : Type 0 where
  pub nft_file : Text
  pub table : Option Text

module _ (nft : Nft) where
  -- The host after a write of NFT_FILE, and whether it succeeded.
  abbrev pub after_write : Text → Host → Host × Bool
  after_write t host =
      let (fine, contents) = nft.write t host.nft_file in
      (record host { nft_file = contents }, fine)

  -- The host after `nft -f` of NFT_FILE, and whether it succeeded.
  abbrev pub after_load : Host → Host × Bool
  after_load host =
      let (fine, table) = nft.load host.nft_file host.table in (record host { table = table }, fine)

  -- The commands on a file that is written; false where one fails and the call raises.
  run_checked : (Host → Host × Bool) → Host × Bool → Host × Bool
  run_checked install (host, false) = (host, false)
  run_checked install (host, true) = if nft.check host.nft_file then install host else (host, false)

  -- The file is written, checked and loaded; false where a step fails and the call raises.
  unfoldable pub checked_load : Text → Host → Host × Bool
  unfolding run_checked
  checked_load t host = run_checked after_load (after_write t host)

  unfoldable pub load_fail_closed_nft : Settings → Text → Host → Host × Bool
  unfolding checked_load
  load_fail_closed_nft settings nft_table host =
      checked_load (render_fail_closed_nft settings nft_table) host

  -- What follows `nft -f`: a failure writes and loads the static table, which may fail itself, and
  -- raises.
  recovered : Settings → Text → Host × Bool → Host × Bool
  unfolding load_fail_closed_nft
  recovered settings nft_table (host, true) = (host, true)
  recovered settings nft_table (host, false) =
      ((load_fail_closed_nft settings nft_table host).0, false)

  load_recovering : Settings → Text → Host → Host × Bool
  unfolding recovered
  load_recovering settings nft_table host = recovered settings nft_table (after_load host)

  -- The rendered table, or the exception of the rendering.
  install : Settings → Text → Result Text → Host → Host × Bool
  unfolding run_checked load_recovering
  install settings nft_table (err e) host = (host, false)
  install settings nft_table (ok t) host =
      run_checked (load_recovering settings nft_table) (after_write t host)

  unfoldable pub load_nft :
      Services
      → (Text → Text)
      → (Text → Answer)
      → Settings
      → Text
      → Dict Text (List Text)
      → Rules
      → Host
      → Host × Bool
  unfolding install
  load_nft services digest ip_address settings nft_table sources rules host =
      install settings nft_table
        (render_nft services digest ip_address settings nft_table sources rules) host
