-- ===== src/PQueue/Setup/Tests.antt =====
-- A queue that is set up and cleared, with all calls of other files well or with one that fails.
use tool_boslib.Base.{
  wrap, ◌≡◌, ◌≢◌, refl, ap, ◌∙◌, [], true, false, arith, Run, ok, exit, ◌>>=◌, Returns, inl, ℤ, pos,
  some,
}
use tool_boslib.PQueue.{Status, Stage}
use tool_boslib.PQueue.Setup.{Setup, Outcomes, new_locks}
use tool_boslib.PQueue.Setup.Calls.{
  init, setup_element, init_at, from_mutex, from_mem_lock, from_dynamic_loader, from_io_channel,
  from_serialize, setup_at, element_size, element_memory_from, element_io_channel,
}
use tool_boslib.PQueue.Setup.Teardown.{clear}
use tool_boslib.PQueue.Setup.Held.{Balanced, held, times}
use tool_boslib.PQueue.Setup.Ready.{HasMemory, ReadyAt, Reaches, early}
use tool_boslib.PQueue.Setup.Stages.{init_refused, resumable}
use tool_boslib.PQueue.Setup.Begin.{init-Reaches}
use tool_boslib.PQueue.Setup.ElementStages.{FilledAt, element_refused, unfinished}
use tool_boslib.PQueue.Setup.Finish.{setup_element-Reaches}
use tool_boslib.PQueue.Setup.End.{Ended, clear-Ended}

-- As PQueue_new leaves it.
abbrev created : Setup
created = record {
  stage = Stage.invalid;
  max_length = 0;
  num_elements = 0;
  max_element_size = 0;
  head = 0;
  tail = 0;
  has_loader = false;
  element_memory_size = pos 0;
  acquired = [];
  released = [];
}

-- All calls succeed; an element takes 12 bytes.
abbrev all_well : Outcomes
all_well = record {
  alloc_locks = true;
  new_mutex = λ i. true;
  new_cond = true;
  alloc_mem_locks = true;
  new_mem_lock = λ i. true;
  new_loader = true;
  init_loader = true;
  get_symbol = true;
  new_channel_write = true;
  new_channel_read = true;
  new_serialize_write = true;
  new_serialize_read = true;
  new_calc_size = true;
  init_calc_size = true;
  open_calc_size = true;
  calc_size = some 12;
  alloc_memory = true;
  open_write = true;
  open_read = true;
  init_serialize_write = true;
  init_serialize_read = true;
}

all_well-HasMemory : HasMemory all_well
all_well-HasMemory = record {
  mutexes = λ i. refl;
  cond = refl;
  mem_locks = λ i. refl;
  loader = refl;
  serialize_write = refl;
  serialize_read = refl;
}

created-ReadyAt : ReadyAt Stage.invalid created
unfolding Balanced times
created-ReadyAt = record { balanced = λ r. refl; no_loader = refl }

invalid-differs : Stage.invalid ≢ Stage.dynamic_loader_new
invalid-differs e = let c : true ≡ false = ap early e in ground arith

init-Reaches_example :
    Returns
      (init all_well 4 true created)
      (Reaches ReadyAt (init_refused all_well) resumable Stage.misc_init)
init-Reaches_example =
    init-Reaches all_well 4 true created all_well-HasMemory refl (inl invalid-differs)
      created-ReadyAt

-- `init`, `setup_element` and `clear` with two kinds of outcomes: the stages in between, the size of the
-- block, and the stage at the end.
abbrev life : Outcomes → Run (Stage × Stage × ℤ × Stage)
life o = do
  (_, a) ← init all_well 4 true created
  (_, b) ← setup_element o a
  c ← clear b
  ok (a.stage, b.stage, b.element_memory_size, c.stage)

life_runs : life all_well ≡ ok (Stage.misc_init, Stage.valid, pos 48, Stage.invalid)
unfolding wrap init setup_element clear new_locks init_at from_mutex from_mem_lock
    from_dynamic_loader from_io_channel from_serialize setup_at element_size element_memory_from
    element_io_channel
life_runs = refl

-- The reading serializer fails; then the next call ends the process.
abbrev no_reader : Outcomes
no_reader = record all_well { init_serialize_read = false }

abbrev retry : Run (Status × Setup)
retry = do
  (_, a) ← init all_well 4 true created
  (_, b) ← setup_element no_reader a
  setup_element all_well b

retry_exits : retry ≡ exit
unfolding init setup_element new_locks init_at from_mutex from_mem_lock from_dynamic_loader
    from_io_channel from_serialize setup_at element_size element_memory_from element_io_channel
retry_exits = refl

abbrev prepared : Setup
prepared = record created {
  stage = Stage.misc_init;
  max_length = 4;
  has_loader = true;
  acquired = held 4 true Stage.misc_init;
}

prepared-Balanced : Balanced 4 true Stage.misc_init prepared.acquired []
unfolding Balanced times
prepared-Balanced r = omega arith

setup_element-Reaches_example :
    Returns
      (setup_element no_reader prepared)
      (Reaches FilledAt (element_refused no_reader) unfinished Stage.valid)
setup_element-Reaches_example =
    setup_element-Reaches no_reader prepared refl (omega arith)
      (record { balanced = prepared-Balanced; sized = tt })

misc_init-differs : (stage : Stage) → early stage ≡ true → Stage.misc_init ≢ stage
misc_init-differs stage h e = let c : false ≡ true = ap early e ∙ h in ground arith

clear-Ended_example : Returns (clear prepared) Ended
clear-Ended_example =
    clear-Ended prepared (misc_init-differs Stage.clean refl) (misc_init-differs Stage.invalid refl)
      prepared-Balanced
