-- ===== src/Telnet/Chunks.antt =====
-- `feed` of app/dal/device/telnet_client.py over several reads.
use network_gateway_api.Prelude.{ℕ, ◌≡◌, refl, [], ◌∷◌, ◌++◌, append_assoc, append-nil}
use network_gateway_api.Telnet.Negotiator.{Bytes, Negotiator, step, feed_loop, feed}

-- `out` only collects.
pub feed_loop-out :
    (n : Negotiator) (out chunk : Bytes)
    → feed_loop n out chunk ≡ ((feed_loop n [] chunk).0, out ++ (feed_loop n [] chunk).1)
unfolding feed_loop
feed_loop-out n out [] = rw append-nil
feed_loop-out n out (byte ∷ rest) =
    let n' = (step n byte).0 in
    let c = (step n byte).1 in
    rw (feed_loop-out n' (out ++ c) rest, feed_loop-out n' c rest, append_assoc)

-- One byte, and then the rest.
pub feed-cons :
    (n : Negotiator) (byte : ℕ) (rest : Bytes)
    → feed n (byte ∷ rest)
      ≡ ((feed (step n byte).0 rest).0, (step n byte).1 ++ (feed (step n byte).0 rest).1)
unfolding feed
feed-cons n byte rest = feed_loop-out (step n byte).0 (step n byte).1 rest

-- Feeding two reads one after the other leaves the state, and gives the text, that feeding the
-- bytes of both at once does: a sequence cut in half is neither lost nor read as text.
pub feed-append :
    (n : Negotiator) (first second : Bytes)
    → feed n (first ++ second)
      ≡ ((feed (feed n first).0 second).0, (feed n first).1 ++ (feed (feed n first).0 second).1)
feed-append n [] second = unfold feed in refl
feed-append n (byte ∷ rest) second = rw (
  feed-cons n byte (rest ++ second),
  feed-append (step n byte).0 rest second,
  feed-cons n byte rest,
  append_assoc,
)
