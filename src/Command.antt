-- ===== src/Command.antt =====
-- main.go: the commands, after cobra has read the flags. A negative number of keys is not modelled.
pub mod Written
use s_mvba.Base.{ℕ, pos, [], Bool}
use s_mvba.Error.{Outcome, ok, panic}
use s_mvba.Crypto.{Bytes}
use s_mvba.Crypto.Shares.{Kyber, PriShare}
use s_mvba.Logger.{logs, deploy_level}
use s_mvba.Config.{generate_key_files, generate_ts_key_files}
use s_mvba.Config.JsonFile.{Files}
use s_mvba.Node.Start.{StartArgs, Started, new_node}

-- A command with its flags.
pub data Command : Type 0 where
  key_cmd : ℕ → Bytes → Command
  tss_key_cmd : ℕ → ℕ → Bytes → Command
  run_cmd : StartArgs → Command
  deploy_cmd : ℕ → Command

-- The flags that are not given.
abbrev pub default_key_cmd : Command
default_key_cmd = key_cmd 4 []

abbrev pub default_tss_key_cmd : Command
default_tss_key_cmd = tss_key_cmd 4 3 []

abbrev pub default_run_args : StartArgs
default_run_args = record {
  keys_file = [];
  ts_key_file = [];
  committee_file = [];
  parameters_file = [];
  store_path = [];
  log_path = [];
  log_level = deploy_level;
  node_id = pos 0;
}

abbrev pub default_deploy_cmd : Command
default_deploy_cmd = deploy_cmd 4

module _ {Scalar Point PubPoly : Type 0} (k : Kyber Scalar Point PubPoly) (keys : ℕ → Bytes × Bytes)
    (gen_ts_keys : ℕ → ℕ → (ℕ → PriShare Scalar) × PubPoly) (can_open : Bytes → Bool) where
  -- An error of `NewNode` ends the process; a node that has started writes none of these files.
  abbrev or_panic : Outcome (Started Scalar PubPoly) → Files → Outcome Files
  or_panic (ok s) files = ok files
  or_panic _ files = panic

  -- The files that a command leaves. `deployCmd` has no `Run`: cobra prints its help.
  unfoldable pub execute : Command → Files → Outcome Files
  execute (key_cmd nodes path) files = generate_key_files can_open keys nodes path files
  execute (tss_key_cmd n t path) files =
      let (shares, pub_poly) = gen_ts_keys t n in
      generate_ts_key_files k can_open shares pub_poly n t path files
  execute (run_cmd a) files = or_panic (new_node k can_open files a logs) files
  execute (deploy_cmd nodes) files = ok files
