-- ===== src/MsgQueue/RoundTrip.antt =====
-- What comes out of the message queue of section-05/lab/msg_queue.c.
use native.Mathlib.Nat.{pow-succ'}
use zhone_engineering_academ.Common.{
  ℕ, zero, suc, ◌*◌, ◌/◌, ◌%◌, ◌^◌, ◌<◌, ◌≡◌, refl, ap, ◌∙◌, some, List, [], ◌∷◌, ◌++◌, arith, take,
  ℤ, pos, negsuc,
}
use zhone_engineering_academ.MsgQueue.{
  MyMsg, Queue, size_of_long, low_bytes, of_bytes, word_of, long_of, send, receive,
}

of_bytes-low_bytes : (k n : ℕ) → n < 256 ^ k → of_bytes (low_bytes k n) ≡ n
unfolding of_bytes low_bytes
of_bytes-low_bytes zero n h = omega arith
of_bytes-low_bytes (suc k) n h =
    let power : 256 ^ suc k ≡ 256 * 256 ^ k = pow-succ' 256 k in
    let small : n / 256 < 256 ^ k = omega arith in
    omega (arith, of_bytes-low_bytes k (n / 256) small)

take-low_bytes : (k n : ℕ) (rest : List ℕ) → take k (low_bytes k n ++ rest) ≡ low_bytes k n
unfolding low_bytes
take-low_bytes zero n rest = refl
take-low_bytes (suc k) n rest = ap (λ t. n % 256 ∷ t) (take-low_bytes k (n / 256) rest)

-- The values of `long`
abbrev pub IsLong : ℤ → Type 0
IsLong (pos n) = n < 2 ^ 63
IsLong (negsuc n) = n < 2 ^ 63

word_of-lt : (x : ℤ) → IsLong x → word_of x < 2 ^ 64
word_of-lt (pos n) h = omega arith
word_of-lt (negsuc n) h = omega arith

long_of-word_of : (x : ℤ) → IsLong x → long_of (word_of x) ≡ x
long_of-word_of (pos n) h = ground arith
long_of-word_of (negsuc n) h = ground arith

of_bytes-take :
    (k n : ℕ) (rest : List ℕ) → n < 256 ^ k → of_bytes (take k (low_bytes k n ++ rest)) ≡ n
of_bytes-take k n rest h = ap of_bytes (take-low_bytes k n rest) ∙ of_bytes-low_bytes k n h

-- Through an empty queue the child prints the number that the parent sent, whatever else the text
-- of the message holds, and leaves the queue empty. If an earlier run has left messages, the child
-- takes the first of those, and the parent's message stays behind the others.
pub receive-send :
    (rest : List ℕ) (key : ℤ) (old : MyMsg) (q : Queue)
    → IsLong key
    → (receive (send rest key []) ≡ some (key, []))
      × (receive (send rest key (old ∷ q))
          ≡ some (long_of (of_bytes (take size_of_long old.mtext)), send rest key q))
unfolding receive send
receive-send rest key old q h = (
  ap (λ w. some (long_of w, [])) (of_bytes-take 8 (word_of key) rest (word_of-lt key h))
      ∙ ap (λ x. some (x, [])) (long_of-word_of key h),
  refl,
)
