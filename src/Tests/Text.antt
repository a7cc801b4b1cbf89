-- ===== src/Tests/Text.antt =====
-- Messages of the committee of four: what is signed, and what is accepted.
use s_mvba.Base.{pos, [], ◌≡◌, refl, lookup, int_eq, eqz, length}
use s_mvba.Committee.{name}
use s_mvba.Message.{Done, new_done}
use s_mvba.Tests.Toy.{toy, four, sigs}

stranger : name four (pos 9) ≡ []
unfolding name lookup eqz
stranger = refl

known : length (name four (pos 1)) ≡ 32
unfolding name lookup eqz
known = refl

abbrev old_done : Done
old_done = new_done toy sigs (pos 1) (pos 3) (pos 1)
