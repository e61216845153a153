-- ===== src/Prodcon/Message.antt =====
-- `print_message` of A2/prodcon.c: counters and the log. The calls come one at a time, under
-- `print_mutex`. The time that stands in front of a line of the log is left out.
use operating_systems_fa.Common.{
  List, [], if◌then◌else◌, not, ℕ, ℤ, ◌&&◌, ◌++◌, ◌+◌, ◌-◌, ◌==◌, ◌∷◌,
}

-- `enum message`, and `PRODUCER_ID`.
pub data Message : Type 0 where
  ask receive work complete tands_sleep end : Message

abbrev pub producer_id : ℕ
producer_id = 0

-- The index of a counter in `msg_stats`.
abbrev pub index_of : Message → ℕ
index_of ask = 0
index_of receive = 1
index_of work = 2
index_of complete = 3
index_of tands_sleep = 4
index_of end = 5

pub record Entry : Type 0 where
  pub message : Message
  pub value : ℤ
  pub id : ℕ

-- `msg_stats`, `thread_stats` (entry `id - 1` for the thread `id`), and the lines of the log.
pub record Output : Type 0 where
  pub msg_stats : Message → ℕ
  pub thread_stats : ℕ → ℕ
  pub log : List Entry

abbrev pub no_output : Output
no_output = record { msg_stats = λ _. 0; thread_stats = λ _. 0; log = [] }

abbrev count_one : (Message → ℕ) → Message → Message → ℕ
count_one stats m k = if index_of m == index_of k then stats k + 1 else stats k

abbrev pub count_thread : (ℕ → ℕ) → Message → ℕ → ℕ → ℕ
count_thread stats complete id i = if not (id == 0) && i == id - 1 then stats i + 1 else stats i
count_thread stats _ id i = stats i

-- The test for an invalid `msg` fails for each member of the enum.
unfoldable pub print_message : Message → ℤ → ℕ → Output → Output
print_message msg n id o = record {
  msg_stats = count_one o.msg_stats msg;
  thread_stats = count_thread o.thread_stats msg id;
  log = o.log ++ record { message = msg; value = n; id = id } ∷ [];
}
