-- ===== src/Module/Lease/Shared.antt =====
-- `LeaseControl` of crates/tinybus/src/module/lease.rs: the handles of one lease share one worker.
use tinybus.Prelude.{
  ℕ, ◌+◌, ◌-◌, ◌%◌, ◌≤◌, ◌<◌, ◌≡◌, refl, Bool, true, false, arith, nat_eq, ◌==◌, if◌then◌else◌,
}
use tinybus.Text.Decimal.{u64_size}

-- `starter` says that the worker has not been started; `runs` counts the workers that were.
pub record LeaseControl : Type 0 where
  pub users : ℕ
  pub starter : Bool
  pub runs : ℕ

abbrev pub new_control : LeaseControl
new_control = record { users = 1; starter = true; runs = 0 }

-- `LeaseControl::start`
unfoldable pub begin : LeaseControl → LeaseControl
begin c = if c.starter then record c { starter = false; runs = c.runs + 1 } else c

-- `Clone` of a `RuntimeLease`
abbrev pub clone_lease : LeaseControl → LeaseControl
clone_lease c = record c { users = (c.users + 1) % u64_size }

-- `Drop` of a `RuntimeLease`: `fetch_sub` answers with the count before, and wraps around.
unfoldable pub drop_lease : LeaseControl → LeaseControl
unfolding begin
drop_lease c =
    let left = record c { users = (c.users + u64_size - 1) % u64_size } in
    if c.users == 1 then begin left else left

-- `close` starts the worker and waits for its answer.
abbrev pub close_lease : LeaseControl → LeaseControl
close_lease c = begin c

-- A lease with the number of its handles that are alive; only a handle clones, drops or closes.
pub record Lease : Type 0 where
  pub control : LeaseControl
  pub handles : ℕ

abbrev pub granted : Lease
granted = record { control = new_control; handles = 1 }

pub data Step : Lease → Lease → Type 0 where
  clones :
      (l : Lease)
      → 0 < l.handles
      → l.handles + 1 < u64_size
      → Step l (record { control = clone_lease l.control; handles = l.handles + 1 })
  drops :
      (l : Lease)
      → 0 < l.handles
      → Step l (record { control = drop_lease l.control; handles = l.handles - 1 })
  closes : (l : Lease) → 0 < l.handles → Step l (record l { control = close_lease l.control })

pub data Steps : Lease → Lease → Type 0 where
  done : (l : Lease) → Steps l l
  then : (k l m : Lease) → Steps k l → Step l m → Steps k m

-- The count is that of the handles, the worker runs once if it was started, and it was started when
-- no handle is left.
pub record IsShared (l : Lease) : Type 0 where
  pub counted : l.control.users ≡ l.handles
  pub room : l.handles < u64_size
  pub once : l.control.runs ≡ (if l.control.starter then 0 else 1)
  pub last : l.handles ≡ 0 → l.control.starter ≡ false

Step-IsShared : {l m : Lease} → Step l m → IsShared l → IsShared m
unfolding drop_lease begin
Step-IsShared (Step.clones l h room) s = record {
  counted = omega (arith, s.counted, room);
  room = room;
  once = s.once;
  last = λ e. absurd (omega (arith, e));
}
Step-IsShared (Step.drops l h) s = record {
  counted = ground (arith, s.counted, s.room, h);
  room = omega (arith, s.room);
  once = ground (arith, s.once);
  last = λ e. ground (arith, s.counted, e, h);
}
Step-IsShared (Step.closes l h) s = record {
  counted = ground (arith, s.counted);
  room = s.room;
  once = ground (arith, s.once);
  last = λ e. ground (arith, s.last e);
}

Steps-IsShared : {l m : Lease} → Steps l m → IsShared l → IsShared m
Steps-IsShared (Steps.done l) s = s
Steps-IsShared (Steps.then k l m run step) s = Step-IsShared step (Steps-IsShared run s)

granted-IsShared : IsShared granted
granted-IsShared = record {
  counted = refl;
  room = omega arith;
  once = refl;
  last = λ e. absurd (omega (arith, e));
}

-- Whatever the handles of a granted lease do, its cleanup worker is started at most once, and it
-- was started once no handle is left; the count of the handles has room in 64 bits.
pub Steps-runs :
    {l : Lease} → Steps granted l → (l.control.runs ≤ 1) × (l.handles ≡ 0 → l.control.runs ≡ 1)
Steps-runs run =
    let s = Steps-IsShared run granted-IsShared in
    (ground (arith, s.once), λ e. ground (arith, s.once, s.last e))
