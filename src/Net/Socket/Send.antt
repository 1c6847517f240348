-- ===== src/Net/Socket/Send.antt =====
-- The loop around `send` puts the whole frame on the wire.
use evolution078ots.Prelude.{ℕ, zero, suc, ◌+◌, ◌-◌, ◌≤◌, ◌<◌, ◌≡◌, ap, ◌∷◌, ◌++◌, true, arith, min}
use evolution078ots.Net.Memory.{Memory, load_bytes}
use evolution078ots.Net.Socket.{Send, send_loop}

-- A socket that is open: `send` takes at least a byte, and no more than it is offered.
abbrev pub IsOpen : Send → Type 0
IsOpen send = (off n : ℕ) → 0 < n → (0 < send off n) × (send off n ≤ n)

load_bytes-add :
    (m : Memory) (a n k : ℕ) → load_bytes m a n ++ load_bytes m (a + n) k ≡ load_bytes m a (n + k)
unfolding load_bytes
load_bytes-add m a zero k = ground arith
load_bytes-add m a (suc n) k =
    let e : suc n + k ≡ suc (n + k) = omega arith in
    let e' : a + suc n ≡ a + 1 + n = omega arith in
    rw (e, e') (ap (◌∷◌ (m a)) (load_bytes-add m (a + 1) n k))

-- Whatever pieces the socket takes, the loop ends within its fuel, reports success, and has sent
-- the bytes of the buffer from `start` on, each once and in order.
pub send_loop_all :
    (send : Send) (fuel : ℕ) (buf : Memory) (start size sent : ℕ)
    → IsOpen send
    → sent < size + 2
    → size + 2 ≤ sent + fuel
    → send_loop send fuel buf start size sent
      ≡ (true, load_bytes buf (sent + start) (size + 2 - sent))
unfolding send_loop
send_loop_all send zero buf start size sent live lo hi = absurd (omega arith)
send_loop_all send (suc fuel) buf start size sent live lo hi = ground (
  arith,
  live sent (min (size + 2 - sent) 1000),
  send_loop_all send fuel buf start size (sent + send sent (min (size + 2 - sent) 1000)) live,
  load_bytes-add buf (sent + start) (send sent (min (size + 2 - sent) 1000))
      (size + 2 - (sent + send sent (min (size + 2 - sent) 1000))),
)
