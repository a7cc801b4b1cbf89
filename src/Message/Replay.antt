-- ===== src/Message/Replay.antt =====
-- Messages of core/smvba/consensus/message.go that sign one text and say different things.
use s_mvba.Base.{ℕ, ◌+◌, ◌*◌, ◌<◌, ℤ, pos, [], ◌++◌, ◌≡◌, ap, sym, ◌∙◌, append_assoc, arith}
use s_mvba.Committee.{Committee}
use s_mvba.Crypto.{Primitives}
use s_mvba.Crypto.Binary.{append_int2, append_int2_twice}
use s_mvba.Message.{Done, done, verify, elect_hash, done_hash}

seam :
    (e : ℕ)
    → 0 < e
    → append_int2 (pos (2 * e + 1)) ++ append_int2 (pos 1)
      ≡ append_int2 (pos e) ++ append_int2 (pos 3)
seam e h =
    rw (append_int2_twice e 1 h (omega arith), append_int2_twice 1 1 (omega arith) (omega arith))
      (append_assoc (append_int2 (pos e)) (append_int2 (pos 1)) (append_int2 (pos 1)))

-- The text under the coin of epoch 2e+1, round 1 is the text under the coin of epoch e, round 3,
-- for every positive e: the numbers are written one behind the other, with no separator.
pub elect_hash_ambiguous :
    (cr : Primitives) (e : ℕ)
    → 0 < e
    → elect_hash cr (pos (2 * e + 1)) (pos 1) ≡ elect_hash cr (pos e) (pos 3)
unfolding elect_hash
elect_hash_ambiguous cr e h = ap (λ t. cr.sha256 (t ++ [])) (seam e h)

done_hash_ambiguous :
    (cr : Primitives) (author : ℤ) (e : ℕ)
    → 0 < e
    → done_hash cr author (pos (2 * e + 1)) (pos 1) ≡ done_hash cr author (pos e) (pos 3)
unfolding done_hash
done_hash_ambiguous cr author e h =
    ap (λ t. cr.sha256 (t ++ []))
      (append_assoc (append_int2 author) (append_int2 (pos (2 * e + 1))) (append_int2 (pos 1))
        ∙ ap (λ t. append_int2 author ++ t) (seam e h)
        ∙ sym (append_assoc (append_int2 author) (append_int2 (pos e)) (append_int2 (pos 3))))

-- A Done of epoch 2e+1, round 1 can be sent again, with the same signature, as a Done of epoch e,
-- round 3: the verdict on the two is the same, for every positive e.
pub done_replay :
    (cr : Primitives) (c : Committee) (d : Done) (e : ℕ)
    → 0 < e
    → d.epoch ≡ pos (2 * e + 1)
    → d.round ≡ pos 1
    → verify cr c (done (record d { epoch = pos e; round = pos 3 })) ≡ verify cr c (done d)
unfolding verify
done_replay cr c d e h p q = rw (p, q, done_hash_ambiguous cr d.author e h)
