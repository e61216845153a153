-- ===== src/Shell/Heap/Writes.antt =====
-- What a write to the memory leaves at each address, and the tests for NULL.
use operating_systems_fa.Common.State.{ok}
use operating_systems_fa.Common.{Option, arith, false, none, some, ◌==◌, ◌≡◌, ◌≢◌}
use operating_systems_fa.Shell.Heap.{
  Ptr, null, Process, Heap, write, load, set_next, set_prev, free,
}

pub write_self : (h : Heap) (a : Ptr) (c : Option Process) → write h a c a ≡ c
unfolding write
write_self h a c = ground arith

pub write_other :
    (h : Heap) (a b : Ptr) (c : Option Process) → (b == a) ≡ false → write h a c b ≡ h b
unfolding write
write_other h a b c ne = rw ne

pub not_null : (a : Ptr) → a ≢ null → (a == null) ≡ false
not_null a ne = ground arith

module _ (h : Heap) {a : Ptr} {c : Process} (ne : a ≢ null) (at : h a ≡ some c) where
  pub load-ok : load a h ≡ ok c h
  unfolding load
  load-ok = rw (not_null a ne, at)

  pub set_next-ok : (q : Ptr) → set_next a q h ≡ ok tt (write h a (some (record c { next = q })))
  unfolding set_next
  set_next-ok q = rw (not_null a ne, at)

  pub set_prev-ok : (q : Ptr) → set_prev a q h ≡ ok tt (write h a (some (record c { prev = q })))
  unfolding set_prev
  set_prev-ok q = rw (not_null a ne, at)

  pub free-ok : free a h ≡ ok tt (write h a none)
  unfolding free
  free-ok = rw (not_null a ne, at)

-- The memory after two assignments to a node and its `free`.
abbrev pub wiped : Heap → Ptr → Process → Process → Heap
wiped h a c d = write (write (write h a (some c)) a (some d)) a none

pub wiped_self : (h : Heap) (a : Ptr) (c d : Process) → wiped h a c d a ≡ none
unfolding write
wiped_self h a c d = ground arith

pub wiped_other : (h : Heap) (a b : Ptr) (c d : Process) → (b == a) ≡ false → wiped h a c d b ≡ h b
unfolding write
wiped_other h a b c d ne = rw ne
