-- ===== src/Node/Start.antt =====
-- The start of a node: `NewNode` of node/node.go, and the first steps of `Consensus` of
-- core/smvba/consensus/consensus.go and of `initmempooltransmit` of mempool/mempool.go.
use s_mvba.Base.{
  ℕ, zero, suc, ℤ, Bool, List, [], ◌∷◌, ◌++◌, ◌==◌, Option, none, some, if◌then◌else◌,
}
use s_mvba.Error.{Outcome, ok, panic, and_then, map_ok}
use s_mvba.Crypto.{Bytes}
use s_mvba.Crypto.Shares.{Kyber}
use s_mvba.Committee.{Committee, address, mempool_address}
use s_mvba.Logger.{
  Log, info_level, debug_level, error_level, warn_level, set_level, set_output, new_file_writer,
}
use s_mvba.Config.{
  TsKey, id_text, gen_keys_from_file, gen_ts_key_from_file, gen_committee_from_file,
}
use s_mvba.Config.JsonFile.{codes, Files}
use s_mvba.Config.Sample.{FileParameters, gen_paramaters_from_file}

-- The arguments of `NewNode`.
pub record StartArgs : Type 0 where
  pub keys_file : Bytes
  pub ts_key_file : Bytes
  pub committee_file : Bytes
  pub parameters_file : Bytes
  pub store_path : Bytes
  pub log_path : Bytes
  pub log_level : ℤ
  pub node_id : ℤ

-- `fmt.Sprintf("%s/node-info-%d.log", logPath, nodeID)`, and so on.
abbrev pub log_file : Bytes → StartArgs → Bytes
log_file kind a =
    a.log_path ++ codes "/node-" ++ kind ++ codes "-" ++ id_text a.node_id ++ codes ".log"

-- One `logger.SetOutput(level, logger.NewFileWriter(..))`.
abbrev open_log : (Bytes → Bool) → StartArgs → Bytes → ℤ → List Log → Outcome (List Log)
open_log can_open a kind level ls =
    map_ok (λ w. set_output level w ls) (new_file_writer can_open (log_file kind a))

unfoldable pub start_logs : (Bytes → Bool) → StartArgs → List Log → Outcome (List Log)
start_logs can_open a ls0 = and_then (open_log can_open a (codes "info") info_level ls0) (λ ls1.
    and_then (open_log can_open a (codes "debug") debug_level ls1) (λ ls2.
      and_then (open_log can_open a (codes "warn") warn_level ls2) (λ ls3.
        map_ok (set_level a.log_level) (open_log can_open a (codes "error") error_level ls3))))

-- `strings.Split(addr, ":")`: never empty.
abbrev onto_first : ℕ → List Bytes → List Bytes
onto_first c [] = (c ∷ []) ∷ []
onto_first c (w ∷ ws) = (c ∷ w) ∷ ws

unfoldable pub split_colon : Bytes → List Bytes
split_colon [] = [] ∷ []
split_colon (c ∷ cs) = let ws = split_colon cs in if c == 58 then [] ∷ ws else onto_first c ws

-- `strings.Split(addr, ":")[1]` after a colon: a panic when there is no second part.
abbrev second_part : List Bytes → Outcome Bytes
second_part (a ∷ b ∷ ws) = ok (58 ∷ b)
second_part _ = panic

unfoldable pub listen_address : Bytes → Outcome Bytes
unfolding split_colon
listen_address addr = second_part (split_colon addr)

-- What is read before anything runs, with the addresses on which the mempool and the consensus listen.
pub record Started (Scalar PubPoly : Type 0) : Type 0 where
  pub log_outputs : List Log
  pub pri_key : Bytes
  pub share_key : TsKey Scalar PubPoly
  pub committee : Committee
  pub parameters : FileParameters
  pub mempool_listens : Bytes
  pub core_listens : Bytes

module _ {Scalar Point PubPoly : Type 0} (k : Kyber Scalar Point PubPoly) (can_open : Bytes → Bool)
    (files : Files) where
  -- Up to the loops that wait for the other nodes.
  unfoldable pub new_node : StartArgs → List Log → Outcome (Started Scalar PubPoly)
  unfolding start_logs listen_address
  new_node a ls0 = and_then (start_logs can_open a ls0) (λ ls.
      and_then (gen_keys_from_file a.keys_file files) (λ keys.
        and_then (gen_ts_key_from_file k a.ts_key_file files) (λ share_key.
          and_then (gen_committee_from_file a.committee_file files) (λ committee.
            and_then (gen_paramaters_from_file a.parameters_file files) (λ parameters.
              and_then (listen_address (mempool_address committee a.node_id)) (λ mempool_at.
                map_ok
                  (λ core_at. record {
                    log_outputs = ls;
                    pri_key = keys.1;
                    share_key = share_key;
                    committee = committee;
                    parameters = parameters;
                    mempool_listens = mempool_at;
                    core_listens = core_at;
                  })
                  (listen_address (address committee a.node_id))))))))

-- The goroutine that dials one address until it is answered: how many dials failed, within the fuel.
unfoldable pub dial_until : (ℕ → Bool) → ℕ → ℕ → Option ℕ
dial_until up zero failed = none
dial_until up (suc fuel) failed =
    let rest = dial_until up fuel (suc failed) in if up failed then some failed else rest

abbrev both_ended : Option ℕ → Option (List ℕ) → Option (List ℕ)
both_ended (some n) (some ns) = some (n ∷ ns)
both_ended _ _ = none

-- `wg.Wait()`: all goroutines have ended.
unfoldable pub wait_all : (Bytes → ℕ → Bool) → ℕ → List Bytes → Option (List ℕ)
unfolding dial_until
wait_all up fuel [] = some []
wait_all up fuel (addr ∷ addrs) = both_ended (dial_until (up addr) fuel 0) (wait_all up fuel addrs)
