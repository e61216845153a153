-- ===== src/Server/Receive/Buffer.antt =====
-- The buffer of `receive_message` when `read` has returned a text with its NUL, and perhaps more.
use operating_systems_fa.Common.{
  [], arith, false, get_elem?, length, ltb, refl, set, some, suc, true, zero, ℕ, ◌++◌, ◌+◌, ◌<◌,
  ◌==◌, ◌∷◌, ◌≡◌,
}
use operating_systems_fa.Common.Text.{
  to_nul, c_string, no_nul, put_over, length-put_over, behind_first,
}
use operating_systems_fa.Server.{Bytes, Server}
use operating_systems_fa.Server.Receive.{take, take_message, handle_message}

-- Behind the first byte, with the NUL that the code writes at `n`, the text is found, as a string
-- and in a copy of `k` bytes.
pub to_nul-put_over :
    (text more buff : Bytes) (n : ℕ)
    → no_nul text ≡ true
    → length text < n
    → length text < length buff
    → to_nul (set (put_over (text ++ 0 ∷ more) buff) n 0) ≡ text
unfolding put_over to_nul
to_nul-put_over text more [] n clean before room = absurd (omega arith)
to_nul-put_over text more buff zero clean before room = absurd (omega arith)
to_nul-put_over [] more (x ∷ buff) (suc n) clean before room = refl
to_nul-put_over (c ∷ cs) more (x ∷ buff) (suc n) clean before room = ground (
  arith,
  clean,
  to_nul-put_over cs more buff n (ground (arith, clean)) (omega arith) (omega arith),
)

pub c_string-put_copy :
    (text more buff : Bytes) (n k : ℕ)
    → no_nul text ≡ true
    → length text < n
    → length text < length buff
    → length text < k
    → c_string (take k (set (put_over (text ++ 0 ∷ more) buff) n 0)) ≡ some text
unfolding put_over c_string
c_string-put_copy text more [] n k clean before room whole = absurd (omega arith)
c_string-put_copy text more buff zero k clean before room whole = absurd (omega arith)
c_string-put_copy text more buff n zero clean before room whole = absurd (omega arith)
c_string-put_copy [] more (x ∷ buff) (suc n) (suc k) clean before room whole = refl
c_string-put_copy (c ∷ cs) more (x ∷ buff) (suc n) (suc k) clean before room whole =
    let rest =
      c_string-put_copy cs more buff n k (ground (arith, clean)) (omega arith) (omega arith)
        (omega arith) in
    let c_ne_0 : (c == 0) ≡ false = ground (arith, clean) in rw (c_ne_0, rest) refl

-- The state when `read` has returned the bytes.
abbrev pub received : Bytes → Server → Server
received bytes s = record s { recv_buff = set (put_over bytes s.recv_buff) (length bytes) 0 }

pub take_message-received :
    (i now : ℕ) (bytes : Bytes) (s : Server)
    → length bytes < length s.recv_buff
    → take_message i now (some bytes) s ≡ handle_message i now (length bytes) (received bytes s)
unfolding take_message
take_message-received i now bytes s room =
    let inside : ltb (length bytes) (length (put_over bytes s.recv_buff)) ≡ true =
      ground (arith, length-put_over bytes s.recv_buff) in
    rw inside refl

-- The first byte of the buffer, and what is behind it.
module _ (b : ℕ) (bytes buff : Bytes) (n : ℕ) (room : 0 < length buff) where
  pub first-put_over : get_elem? (set (put_over (b ∷ bytes) buff) (suc n) 0) 0 ≡ some b
  unfolding put_over
  first-put_over =
      elim buff
          as (λ l. 0 < length l → get_elem? (set (put_over (b ∷ bytes) l) (suc n) 0) 0 ≡ some b) [
            | [] ↦ λ r. absurd (omega arith)
            | x ∷ xs ↦ λ r. refl
          ]
        room

  pub behind-put_over :
      behind_first (set (put_over (b ∷ bytes) buff) (suc n) 0)
      ≡ set (put_over bytes (behind_first buff)) n 0
  unfolding put_over
  behind-put_over =
      elim buff
          as (λ l.
            0 < length l
            → behind_first (set (put_over (b ∷ bytes) l) (suc n) 0)
              ≡ set (put_over bytes (behind_first l)) n 0) [
                | [] ↦ λ r. absurd (omega arith)
                | x ∷ xs ↦ λ r. refl
              ]
        room

pub length-behind_first :
    (buff : Bytes) → 0 < length buff → length (behind_first buff) + 1 ≡ length buff
length-behind_first [] room = absurd (omega arith)
length-behind_first (x ∷ xs) room = omega arith
