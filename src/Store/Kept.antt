-- ===== src/Store/Kept.antt =====
-- What store/nutsdb.go keeps, by what nutsdb documents.
use s_mvba.Base.{
  Option, none, some, Bool-cases, bytes_eq, bytes_eq_iff, inl, inr, ◌≡◌, ◌≢◌, refl, subst, ap, ◌∙◌,
}
use s_mvba.Error.{Error, ok, panic}
use s_mvba.Crypto.{Bytes}
use s_mvba.Store.Nuts.{
  Nuts, default_bucket, get, put, update, in_tx, committed, begun, new_default_nuts_db, or_panic,
  with_bucket,
}

-- What nutsdb documents of `Put` and `Get` in one bucket of a database that is open.
pub record NutsLaws {D : Type 0} (nuts : Nuts D) : Type 0 where
  pub opened : (d : D) → nuts.begins d ≡ none
  pub put_own :
      (k v : Bytes) (d : D)
      → (nuts.tx_put default_bucket k v d).0 ≡ none
      → nuts.tx_get default_bucket k (nuts.tx_put default_bucket k v d).1 ≡ (v, none)
  pub put_other :
      (k j v : Bytes) (d : D)
      → k ≢ j
      → nuts.tx_get default_bucket j (nuts.tx_put default_bucket k v d).1
        ≡ nuts.tx_get default_bucket j d

module _ {D : Type 0} (nuts : Nuts D) where
  -- The database has a value for a key.
  abbrev pub InNuts : D → Bytes → Type 0
  InNuts d k = (nuts.tx_get default_bucket k d).1 ≡ none

  in_tx-InNuts :
      (j : Bytes) (d : D) (r : Option Error × D)
      → InNuts d j
      → (r.0 ≡ none → InNuts r.1 j)
      → InNuts (in_tx nuts d r).1 j
  in_tx-InNuts j d (some e, t) h f = h
  in_tx-InNuts j d (none, t) h f = go (nuts.commits t)
    where
      go : (o : Option Error) → InNuts (committed nuts d t o).1 j
      go none = f refl
      go (some e) = h

  module _ (laws : NutsLaws nuts) where
    pub get-tx_get : (k : Bytes) (d : D) → get nuts k d ≡ nuts.tx_get default_bucket k d
    unfolding get
    get-tx_get k d = rw (laws.opened d) refl

    -- A put, whether it succeeds or fails, takes no value away.
    pub put-InNuts : (k j v : Bytes) (d : D) → InNuts d j → InNuts (put nuts k v d).1 j
    unfolding put update
    put-InNuts k j v d h = rw (laws.opened d) (
        in_tx-InNuts j d (nuts.tx_put default_bucket k v d) h (λ done.
          elim (Bool-cases (bytes_eq k j)) [
            | inl e ↦
                subst (λ i. InNuts (nuts.tx_put default_bucket k v d).1 i) ((bytes_eq_iff k j).0 e)
                  (rw (laws.put_own k v d done) refl)
            | inr e ↦ rw (laws.put_other k j v d (λ q. cc ((bytes_eq_iff k j).1 q, e))) h
          ]))

  -- An `Update` that succeeds has made the changes of its function, which returned no error.
  update-none :
      (f : D → Option Error × D) (d t : D)
      → update nuts f d ≡ (none, t)
      → (f d).0 ≡ none × ((f d).1 ≡ t)
  unfolding update
  update-none f d t h = go (nuts.begins d) h
    where
      closing : (u : D) (o : Option Error) → committed nuts d u o ≡ (none, t) → u ≡ t
      closing u none e = ap (λ p. p.1) e
      closing u (some x) e = absurd (cc (ap (λ p. p.0) e))

      inside : (r : Option Error × D) → in_tx nuts d r ≡ (none, t) → r.0 ≡ none × (r.1 ≡ t)
      inside (none, u) e = (refl, closing u (nuts.commits u) e)
      inside (some x, u) e = absurd (cc (ap (λ p. p.0) e))

      go : (b : Option Error) → begun nuts f d b ≡ (none, t) → (f d).0 ≡ none × ((f d).1 ≡ t)
      go none e = inside (f d) e
      go (some x) e = absurd (cc (ap (λ p. p.0) e))

  -- A node cannot start again on its store: when a bucket that was made cannot be made once more, as
  -- nutsdb documents, opening what `NewDefaultNutsDB` has opened and left panics.
  pub reopen_panics :
      (dir : Bytes) (d : D)
      → ((b : Bytes) (u : D)
          → (nuts.tx_new_bucket b u).0 ≡ none
          → (nuts.tx_new_bucket b (nuts.tx_new_bucket b u).1).0 ≢ none)
      → new_default_nuts_db nuts dir ≡ ok d
      → new_default_nuts_db (record nuts { open_dir = λ path. some d }) dir ≡ panic
  unfolding new_default_nuts_db
  reopen_panics dir d once h = go (nuts.open_dir dir) h
    where
      again :
          (u : D)
          → (nuts.tx_new_bucket default_bucket u).0 ≡ none
          → (r : Option Error × D)
          → update nuts (nuts.tx_new_bucket default_bucket) (nuts.tx_new_bucket default_bucket u).1
            ≡ r
          → or_panic nuts r ≡ panic
      again u made (some x, v) e = refl
      again u made (none, v) e = absurd (
          once default_bucket u made
            (update-none (nuts.tx_new_bucket default_bucket) (nuts.tx_new_bucket default_bucket u).1
              v e).0)

      opened :
          (u : D) (r : Option Error × D)
          → update nuts (nuts.tx_new_bucket default_bucket) u ≡ r
          → or_panic nuts r ≡ ok d
          → or_panic nuts (update nuts (nuts.tx_new_bucket default_bucket) d) ≡ panic
      opened u (some x, v) e q = absurd cc
      opened u (none, v) e q =
          let f = nuts.tx_new_bucket default_bucket in
          let (made, left) = update-none f u v e in
          let same : v ≡ d = cc in
          subst (λ (x : D). or_panic nuts (update nuts f x) ≡ panic) (left ∙ same)
            (again u made (update nuts f (f u).1) refl)

      go :
          (o : Option D)
          → with_bucket nuts o ≡ ok d
          → or_panic nuts (update nuts (nuts.tx_new_bucket default_bucket) d) ≡ panic
      go none e = absurd cc
      go (some u) e = opened u (update nuts (nuts.tx_new_bucket default_bucket) u) refl e
