-- ===== src/Process.antt =====
-- A process: kernel/src/process.rs. Its stack memory is a list of bytes, its name a list of
-- characters, its page table the address of the root frame.
use kafka_os.Base.{ℕ, List, [], replicate, add64}
use kafka_os.Vm.Area.{VmArea}

pub data ProcessState : Type 0 where
  ready running blocked terminated : ProcessState

pub ProcessState-discrete : Discrete ProcessState
ProcessState-discrete = hlevel

pub record Process : Type 0 where
  pub id : ℕ
  pub name : List ℕ
  pub stack_pointer : ℕ
  pub state : ProcessState
  pub stack_memory : List ℕ
  pub page_table : ℕ
  pub vma_list : List VmArea
  pub priority : ℕ
  pub quantum_remaining : ℕ
  pub total_ticks : ℕ
  pub cpu_since_boost : ℕ

-- `Process::new`: where the heap put the stack and which frame holds the page table are arguments.
unfoldable pub new_process : ℕ → List ℕ → ℕ → ℕ → ℕ → Process
new_process id name stack_size stack_start page_table = record {
  id = id;
  name = name;
  stack_pointer = add64 stack_start stack_size;
  state = ProcessState.ready;
  stack_memory = replicate stack_size 0;
  page_table = page_table;
  vma_list = [];
  priority = 0;
  quantum_remaining = 2;
  total_ticks = 0;
  cpu_since_boost = 0;
}
