-- ===== src/Bus/Publisher/Registration.antt =====
-- Consumers are registered and unregistered.
use fluxcap.Prelude.{
  ℕ, suc, ◌+◌, ◌-◌, ◌^◌, Bool, true, false, not, ◌&&◌, ◌||◌, ◌==◌, ltb, leb, List, [], ◌∷◌, get_or,
  set, if◌then◌else◌, u32, u64, Option, none, some,
}
use fluxcap.Gpu.{
  GpuError, Result, value, error, ◌>>◌, refuse, success, make_error, misused, invalid,
  timeout_error, e_unexpected, system_error, unsupported, invalid_argument, is_ok,
}
use fluxcap.Bus.Control.{no_access, encode_access_tag, close_consumer_access}
use fluxcap.Bus.Publisher.{SharedFrameBusPublisherState, ConsumerRecord, no_consumer}
use fluxcap.Bus.Publisher.Sweep.{ConsumerReading, sweep_consumers, no_control}
use fluxcap.Bus.Publisher.Calls.{closed_error}

-- What names the consumer in the registration; the handles, the adapter and the shape of the frames
-- are left to the caller.
pub record SharedFrameBusRegistration : Type 0 where
  pub structure_size : ℕ
  pub protocol_version : ℕ
  pub consumer_index : ℕ
  pub target_process_id : ℕ
  pub consumer_token : ℕ

-- `sizeof(SharedFrameBusRegistration)`.
abbrev pub registration_size : ℕ
registration_size = 144

-- `E_HANDLE`.
abbrev pub e_handle : ℕ
e_handle = 0x80070006

-- How the calls of the system end: the process and its handle, the fence and its handle, the handles
-- that are given to the target, what is known of its process at the end, and whether the handles that
-- were given can be taken back.
pub record RegistrationReading : Type 0 where
  pub target_is_null : Bool
  pub process_id : ℕ
  pub last_error : ℕ
  pub watched : Bool
  pub fence_created : Option ℕ
  pub fence_shared : Option ℕ
  pub duplicated : Bool
  pub target_exited : Bool
  pub wait_failed : Bool
  pub rolled_back : Bool
  pub first_error : ℕ

unfoldable pub first_inactive : ℕ → List ConsumerRecord → Option ℕ
first_inactive index [] = none
first_inactive index (r ∷ rs) =
    let rest = first_inactive (suc index) rs in if not r.active then some index else rest

-- The largest generation that the tag can hold.
abbrev pub last_generation : ℕ
last_generation = 2 ^ 47 - 1

-- The system's calls in their order, up to the number of the consumer.
unfoldable pub check_system : RegistrationReading → ℕ → Result (Unit {0})
check_system o generation = do
  refuse (o.process_id == 0) (make_error system_error o.last_error)
  refuse (not o.watched) (make_error system_error o.last_error)
  elim (o.fence_created) [ none ↦ value tt | some hr ↦ error (make_error unsupported hr) ]
  elim (o.fence_shared) [ none ↦ value tt | some hr ↦ error (make_error system_error hr) ]
  refuse (generation == 0 || ltb last_generation generation) (make_error system_error e_unexpected)

abbrev count_active : SharedFrameBusPublisherState → ℕ
count_active p = u32 (p.statistics.active_consumers + 1)

-- Handles that cannot be taken back keep the place of the consumer, closed.
unfoldable pub poison_consumer :
    ℕ → ℕ → ℕ → SharedFrameBusPublisherState → SharedFrameBusPublisherState
poison_consumer index token process_id p = record p {
  consumers =
      set p.consumers index
        (record { token = token; process_id = process_id; active = true; poisoned = true });
  controls =
      set p.controls index
        (record { token = token; access_state = no_access; process_id = process_id });
  statistics = record p.statistics { active_consumers = count_active p };
}

unfoldable pub enrol_consumer :
    ℕ → ℕ → ℕ → SharedFrameBusPublisherState → SharedFrameBusPublisherState
enrol_consumer index token process_id p = record p {
  consumers =
      set p.consumers index
        (record { token = token; process_id = process_id; active = true; poisoned = false });
  controls = set p.controls index (record {
    token = token;
    access_state = record { refs = 0; is_open = true; tag = encode_access_tag token };
    process_id = process_id;
  });
  statistics = record p.statistics {
    consumer_registrations = u64 (p.statistics.consumer_registrations + 1);
    active_consumers = count_active p;
  };
}

-- The consumer has its number.
unfoldable pub register_numbered :
    RegistrationReading
    → ℕ
    → ℕ
    → SharedFrameBusPublisherState
    → SharedFrameBusPublisherState × Result SharedFrameBusRegistration
unfolding poison_consumer enrol_consumer
register_numbered o index token p =
    if not o.duplicated || o.target_exited || o.wait_failed
    then (
      if not o.rolled_back && not o.target_exited
          then poison_consumer index token o.process_id p
          else p,
      error (make_error system_error o.first_error),
    )
    else (
      enrol_consumer index token o.process_id p,
      value (record {
        structure_size = registration_size;
        protocol_version = 5;
        consumer_index = index;
        target_process_id = o.process_id;
        consumer_token = token;
      }),
    )

unfoldable pub register_checked :
    Result (Unit {0})
    → RegistrationReading
    → ℕ
    → SharedFrameBusPublisherState
    → SharedFrameBusPublisherState × Result SharedFrameBusRegistration
unfolding register_numbered
register_checked (error e) o index p = (p, error e)
register_checked (value done) o index p =
    register_numbered o index p.next_consumer_generation
      (record p { next_consumer_generation = p.next_consumer_generation + 1 })

unfoldable pub register_swept :
    RegistrationReading
    → Option ℕ
    → SharedFrameBusPublisherState
    → SharedFrameBusPublisherState × Result SharedFrameBusRegistration
unfolding check_system register_checked
register_swept o none p = (p, error timeout_error)
register_swept o (some index) p =
    register_checked (check_system o p.next_consumer_generation) o index p

unfoldable pub register_consumer :
    RegistrationReading
    → List ConsumerReading
    → SharedFrameBusPublisherState
    → SharedFrameBusPublisherState × Result SharedFrameBusRegistration
unfolding closed_error sweep_consumers first_inactive register_swept
register_consumer o readings p =
    let (q, swept) = sweep_consumers readings p in
    if o.target_is_null
    then (p, error (make_error invalid_argument e_handle))
    else if p.shutting_down
    then (p, error (closed_error p))
    else if p.writer_active
    then (p, error timeout_error)
    else if not (is_ok swept)
    then (q, error swept)
    else register_swept o (first_inactive 0 q.consumers) q

unfoldable pub bad_registration : SharedFrameBusRegistration → SharedFrameBusPublisherState → Bool
bad_registration r p =
    not (r.structure_size == registration_size)
    || not (r.protocol_version == 5)
    || leb p.config.max_consumers r.consumer_index
    || r.consumer_token == 0

-- The consumer that the registration names is still there.
abbrev pub is_registered : SharedFrameBusRegistration → SharedFrameBusPublisherState → Bool
is_registered r p =
    let record_of = get_or p.consumers r.consumer_index no_consumer in
    record_of.active && record_of.token == r.consumer_token

-- The rounds that are made until the consumer is gone or the time is up; others may change the state
-- between them, so each has the change that it meets.
pub record UnregisterRound : Type 0 where
  pub readings : List ConsumerReading
  pub meanwhile : SharedFrameBusPublisherState → SharedFrameBusPublisherState

unfoldable pub unregister_rounds :
    List UnregisterRound
    → SharedFrameBusRegistration
    → SharedFrameBusPublisherState
    → SharedFrameBusPublisherState × GpuError
unfolding sweep_consumers
unregister_rounds [] r p = (p, timeout_error)
unregister_rounds (round ∷ rounds) r p =
    let (q, swept) = sweep_consumers round.readings (round.meanwhile p) in
    let rest = unregister_rounds rounds r q in
    if not (is_ok swept) then (q, swept) else if not (is_registered r q) then (q, success) else rest

unfoldable pub unregister_consumer :
    SharedFrameBusRegistration
    → List UnregisterRound
    → SharedFrameBusPublisherState
    → SharedFrameBusPublisherState × GpuError
unfolding bad_registration unregister_rounds close_consumer_access
unregister_consumer r rounds p =
    let c = get_or p.controls r.consumer_index no_control in
    let closed = record p {
      controls =
          set p.controls r.consumer_index
            (close_consumer_access c (encode_access_tag r.consumer_token));
    } in
    if bad_registration r p
    then (p, invalid)
    else if p.writer_active
    then (p, timeout_error)
    else if not (is_registered r p)
    then (p, misused)
    else if not (c.token == r.consumer_token)
    then (p, misused)
    else unregister_rounds rounds r closed
