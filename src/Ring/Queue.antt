-- ===== src/Ring/Queue.antt =====
-- A queue of at most so many records meets the interface of the ring buffer.
use orb.Prelude.{
  ℕ, ◌≡◌, refl, Option, none, some, List, [], ◌∷◌, ◌++◌, arith, if◌then◌else◌, ltb, length,
}
use orb.Ring.{RingBuf}

unfoldable pub push : ℕ → List (List ℕ) → List ℕ → Option (List (List ℕ))
push room q b = if ltb (length q) room then some (q ++ b ∷ []) else none

unfoldable pub pop : List (List ℕ) → Option (List ℕ × List (List ℕ))
pop [] = none
pop (b ∷ q) = some (b, q)

pub push-some :
    (room : ℕ) (q q' : List (List ℕ)) (b : List ℕ) → push room q b ≡ some q' → q' ≡ q ++ b ∷ []
unfolding push
push-some room q q' b e = ground arith

pub pop-none : (q : List (List ℕ)) → pop q ≡ none → q ≡ []
unfolding pop
pop-none [] e = refl
pop-none (b ∷ q) e = cc

pub pop-some : (q q' : List (List ℕ)) (b : List ℕ) → pop q ≡ some (b, q') → q ≡ b ∷ q'
unfolding pop
pop-some [] q' b e = cc
pop-some (c ∷ q) q' b e = ground arith

unfoldable pub queue : ℕ → RingBuf
unfolding push pop
queue room = record {
  Ring = List (List ℕ);
  pending = λ q. q;
  submit = push room;
  next = pop;
  pending-submit = push-some room;
  pending-next_none = pop-none;
  pending-next_some = pop-some;
}
