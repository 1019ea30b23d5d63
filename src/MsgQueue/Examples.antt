-- ===== src/MsgQueue/Examples.antt =====
-- The message queue of section-05/lab/msg_queue.c with its key, and with a negative one.
use zhone_engineering_academ.Common.{◌≡◌, refl, some, [], ◌∷◌, take, negsuc, pos, arith, replicate}
use zhone_engineering_academ.MsgQueue.{MyMsg, size_of_long, of_bytes, long_of, send, receive}
use zhone_engineering_academ.MsgQueue.RoundTrip.{receive-send}

key_test : receive (send (9 ∷ []) (pos 1234567890123456789) []) ≡ some (pos 1234567890123456789, [])
unfolding receive send
key_test = refl

abbrev old : MyMsg
old = record { mtype = 1; mtext = 7 ∷ 0 ∷ 0 ∷ 0 ∷ 0 ∷ 0 ∷ 0 ∷ 0 ∷ [] }

receive-send_example :
    (receive (send (replicate 1016 9) (negsuc 4) []) ≡ some (negsuc 4, []))
    × (receive (send (replicate 1016 9) (negsuc 4) (old ∷ []))
        ≡ some (
          long_of (of_bytes (take size_of_long old.mtext)),
          send (replicate 1016 9) (negsuc 4) [],
        ))
receive-send_example = receive-send (replicate 1016 9) (negsuc 4) old [] (omega arith)
