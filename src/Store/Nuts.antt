-- ===== src/Store/Nuts.antt =====
-- store/nutsdb.go over the record `Nuts` for the library nutsdb. `D` is a database, and also one with
-- the changes of a transaction.
use s_mvba.Base.{Option, none, some, []}
use s_mvba.Error.{Error, Outcome, ok, panic}
use s_mvba.Crypto.{Bytes}
use s_mvba.Config.JsonFile.{codes}
use s_mvba.Store.{Db}

-- What the code calls of nutsdb. A begin can fail, and so can a commit.
pub record Nuts (D : Type 0) : Type 0 where
  pub open_dir : Bytes → Option D
  pub begins : D → Option Error
  pub commits : D → Option Error
  pub tx_new_bucket : Bytes → D → Option Error × D
  pub tx_get : Bytes → Bytes → D → Bytes × Option Error
  pub tx_put : Bytes → Bytes → Bytes → D → Option Error × D

-- `DefaultBucket`.
abbrev pub default_bucket : Bytes
default_bucket = codes "DefaultBucket"

module _ {D : Type 0} (nuts : Nuts D) where
  abbrev pub committed : D → D → Option Error → Option Error × D
  committed before after none = (none, after)
  committed before after (some e) = (some e, before)

  -- An error of the function rolls back.
  abbrev pub in_tx : D → Option Error × D → Option Error × D
  in_tx before (some e, after) = (some e, before)
  in_tx before (none, after) = committed before after (nuts.commits after)

  abbrev pub begun : (D → Option Error × D) → D → Option Error → Option Error × D
  begun f d none = in_tx d (f d)
  begun f d (some e) = (some e, d)

  -- nutsdb's `Update`.
  unfoldable pub update : (D → Option Error × D) → D → Option Error × D
  update f d = begun f d (nuts.begins d)

  abbrev pub viewed : Bytes → D → Option Error → Bytes × Option Error
  viewed key d none = nuts.tx_get default_bucket key d
  viewed key d (some e) = ([], none)

  -- `Get` drops the error of `View`: where the transaction does not begin, it answers nil and no error.
  unfoldable pub get : Bytes → D → Bytes × Option Error
  get key d = viewed key d (nuts.begins d)

  unfoldable pub put : Bytes → Bytes → D → Option Error × D
  unfolding update
  put key val d = update (nuts.tx_put default_bucket key val) d

  abbrev pub or_panic : Option Error × D → Outcome D
  or_panic (none, d) = ok d
  or_panic (some e, d) = panic

  abbrev pub with_bucket : Option D → Outcome D
  with_bucket none = panic
  with_bucket (some d) = or_panic (update (nuts.tx_new_bucket default_bucket) d)

  unfoldable pub new_default_nuts_db : Bytes → Outcome D
  unfolding update
  new_default_nuts_db dir = with_bucket (nuts.open_dir dir)

  unfoldable pub nuts_db : Db D
  unfolding get put
  nuts_db = record { get = get; put = put }
