-- ===== src/Client.antt =====
-- A3/client.c: the client's state, and what it does before it reads its input.
pub mod Input
pub mod Session
pub mod Main
mod Examples
use operating_systems_fa.Common.{
  List, Option, [], eqb_ℤ, if◌then◌else◌, length, ltb, none, pos, some, ℕ, ℤ, ◌&&◌, ◌++◌, ◌∷◌,
}
use operating_systems_fa.Common.Atoi.{atoi}
use operating_systems_fa.Common.Decimal.{decimal}

abbrev pub Bytes : Type 0
Bytes = List ℕ

abbrev pub packet_size : ℕ
packet_size = 1024

-- The port, or the end of the program (`none`). The address is passed on to `inet_pton`.
pub usage_check : List Bytes → Option ℤ
usage_check (program ∷ port ∷ address ∷ []) =
    if eqb_ℤ (atoi port) (pos 0) then none else some (atoi port)
usage_check _ = none

-- `open_output_file`: the name of the file, in 100 bytes with its NUL. `hostname` is what
-- `gethostname` has written to 40 bytes, up to its NUL.
unfoldable pub output_file_name : (hostname : Bytes) → (pid : ℕ) → Option Bytes
output_file_name hostname pid =
    let filename = hostname ++ b'.' ∷ decimal pid in
    if ltb (length filename) 100 && ltb (length (decimal pid)) 10 then some filename else none

-- The first message, in the 101 bytes of `clientname` with its NUL.
unfoldable pub name_message : (filename : Bytes) → Option Bytes
name_message filename =
    let clientname = b'N' ∷ filename in
    if ltb (length clientname) 101 then some clientname else none
