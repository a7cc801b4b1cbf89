-- ===== src/Tests/Startup.antt =====
-- A node of main.go that starts from the files that the commands write.
use s_mvba.Base.{
  ◌∷◌, arith, pos, [], some, insert, lookup, digest_eq, int_eq, eqz, bytes_eq, ◌≡◌, refl,
}
use s_mvba.Error.{Outcome, ok, panic, and_then, map_ok}
use s_mvba.Crypto.{Bytes}
use s_mvba.Crypto.Hex.{encode_public_key, decode_public_key, encode_private_key, decode_private_key}
use s_mvba.Crypto.Shares.{
  encode_ts_partial_key, decode_ts_partial_key, encode_ts_public_key, decode_ts_public_key,
}
use s_mvba.Committee.{address, mempool_address}
use s_mvba.Config.{
  generate_key_files, generate_ts_key_files, key_file, ts_key_file, gen_keys_from_file,
  gen_ts_key_from_file, gen_committee_from_file, read_authorities,
}
use s_mvba.Config.Decimal.{itoa, atoi}
use s_mvba.Config.JsonFile.{
  codes, Json, text, object, no_fields, field, Files, save_to_file, write_numbered, read_from_file,
  get_field,
}
use s_mvba.Config.Sample.{
  parameters_file, FileParameters, gen_default_parameters, generate_sample_parameters,
  gen_paramaters_from_file,
}
use s_mvba.Logger.{logs, deploy_level, new_file_writer}
use s_mvba.Node.Start.{StartArgs, new_node, start_logs}
use s_mvba.Command.{execute, key_cmd, tss_key_cmd, run_cmd, default_run_args}
use s_mvba.Command.Written.{written, execute-keys}
use s_mvba.Tests.Files.{
  shares, numbers_laws, share_text, public_key_text, All-twos, numbers, drawn, dealt, always,
}

abbrev member : Json
member = object (
    field (codes "name") (text (codes "0a0b")) (
      field (codes "addr") (text (codes "10.0.0.7:9001"))
        (field (codes "mempool_addr") (text (codes "10.0.0.7:9005")) no_fields)))

abbrev committee_json : Json
committee_json = object (field (codes "1") member no_fields)

abbrev args : StartArgs
args = record {
  keys_file = codes "./.node-key-1.json";
  ts_key_file = codes "./.node-ts-key-1.json";
  committee_file = codes "c.json";
  parameters_file = parameters_file;
  store_path = codes "db";
  log_path = codes "logs";
  log_level = deploy_level;
  node_id = pos 1;
}

-- The keys of two nodes, and the sample parameters.
abbrev prepared : Outcome Files
prepared = and_then (execute numbers drawn dealt always (key_cmd 2 (codes ".")) []) (λ one.
    and_then (execute numbers drawn dealt always (tss_key_cmd 2 1 (codes ".")) one) (λ two.
      and_then (generate_sample_parameters always two)
        (λ three. ok (insert (codes "c.json") (some committee_json) three))))

-- What a node that starts listens on, and its parameters.
abbrev listening : Outcome (Bytes × Bytes × FileParameters)
listening = and_then prepared (λ files.
    map_ok (λ s. (s.core_listens, s.mempool_listens, s.parameters))
      (new_node numbers always files args logs))

starts : listening ≡ ok (codes ":9001", codes ":9005", gen_default_parameters)
unfolding execute generate_key_files generate_ts_key_files generate_sample_parameters new_node
    save_to_file write_numbered read_from_file get_field key_file ts_key_file gen_keys_from_file
    gen_ts_key_from_file gen_committee_from_file gen_paramaters_from_file read_authorities lookup
    insert bytes_eq itoa atoi new_file_writer decode_public_key encode_public_key decode_private_key
    encode_private_key decode_ts_partial_key encode_ts_partial_key decode_ts_public_key
    encode_ts_public_key mempool_address eqz address
starts = refl

-- With no flags the keys' file has no name.
unnamed : execute numbers drawn dealt always (run_cmd default_run_args) [] ≡ panic
unfolding execute new_node gen_keys_from_file read_from_file new_file_writer lookup start_logs
unnamed = refl

execute-keys_example :
    (and_then
        (written always numbers drawn dealt 4 4 3 (codes ".") [])
        (gen_keys_from_file (key_file (codes ".") 2))
      ≡ ok ((drawn 2).1, (drawn 2).0))
    × (and_then
          (written always numbers drawn dealt 4 4 3 (codes ".") [])
          (gen_ts_key_from_file numbers (ts_key_file (codes ".") 2))
        ≡ ok (record { pub_poly = (8, 9); pri_share = shares 2; n = pos 4; t = pos 3 }))
execute-keys_example =
    execute-keys always (λ name. refl) numbers numbers_laws drawn dealt 4 4 3 2 (codes ".")
      (0 ∷ 2 ∷ 42 ∷ []) (8 ∷ 9 ∷ []) [] (omega arith) (omega arith) (omega arith) (omega arith)
      (All-twos 32) (All-twos 64) share_text public_key_text
