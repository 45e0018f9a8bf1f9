-- ===== src/Core/Places.antt =====
-- An abstract view of the barrier: for each place of `allProcShm` its pid and wait flag, the process
-- that belongs to it, and whether that is counted at a condition variable.
pub mod Move
pub mod Release
pub mod View
use plr.Prelude.{ℕ, ◌≤◌, ◌<◌, ◌≡◌, ◌≢◌, ◌⊎◌, Bool, true, ◌==◌, if◌then◌else◌, total, arith}
use plr.Prelude.{Option, some, suc, ℤ, pos, negsuc}
use plr.Core.State.{Phase, gone, outside, waiting, forked_in_action, forked_in_watchdog, System}

pub data Kind : Type 0 where
  absent free : Kind
  inside : (w : ℕ) → Kind
  child_of_action : (w : ℕ) → Kind
  child_of_watchdog : (w captured : ℕ) → Kind

abbrev pub kind : Phase → Kind
kind gone = absent
kind outside = free
kind (waiting w _ _ _) = inside w
kind (forked_in_action _ w) = child_of_action w
kind (forked_in_watchdog _ w v _) = child_of_watchdog w v

-- 1 for a process that `condWaitCnt[k]` counts.
abbrev pub counted : ℕ → Kind → ℕ
counted k absent = 0
counted k free = 0
counted k (inside w) = if w == k then 1 else 0
counted k (child_of_action w) = if w == k then 1 else 0
counted k (child_of_watchdog _ _) = 0

pub record Place : Type 0 where
  pub pid : ℕ
  pub flag : ℤ
  pub self : ℕ
  pub at : Kind

abbrev pub weight : ℕ → Place → ℕ
weight k p = counted k p.at

pub record Places : Type 0 where
  pub n : ℕ
  pub cur : ℕ
  pub cnt : ℕ → ℕ
  pub restoring : Bool
  pub forks : ℕ
  pub place : ℕ → Place

abbrev pub places : System → Places
places s = record {
  n = s.plr.n_proc;
  cur = s.plr.cur_wait_idx;
  cnt = s.plr.cond_wait_cnt;
  restoring = s.plr.restoring;
  forks = s.forks;
  place = λ i. record {
    pid = (s.all_proc i).pid;
    flag = (s.all_proc i).wait_idx;
    self = (s.process i).self;
    at = kind (s.process i).phase;
  };
}

-- What the flag and the pid of a place say about its process.
abbrev pub FitsAt : ℕ → Bool → ℕ → ℤ → ℕ → Kind → Type 0
FitsAt cur r pid flag self absent = pid ≡ self
FitsAt cur r pid flag self free = (flag ≡ negsuc 0) × (pid ≡ self)
FitsAt cur r pid flag self (inside w) =
    (pid ≡ self) × (((flag ≡ negsuc 0) × (w ≢ cur)) ⊎ ((flag ≡ pos w) × (w ≡ cur)))
FitsAt cur r pid flag self (child_of_action w) = (flag ≡ negsuc 0) × (w ≢ cur)
FitsAt cur r pid flag self (child_of_watchdog w v) = (w ≡ cur) × (v ≡ cur) × (r ≡ true)

abbrev pub Fits : Places → Place → Type 0
Fits a p = FitsAt a.cur a.restoring p.pid p.flag p.self p.at

-- Pids are positive and the kernel gives new ones to children: `limit k` is above all pids that are
-- in use before fork number `k`.
pub record FreshPids (fork : ℕ → Option ℕ) (limit : ℕ → ℕ) : Type 0 where
  pub range : (k p : ℕ) → fork k ≡ some p → (limit k ≤ p) × (p < limit (suc k))
  pub mono : (k : ℕ) → limit k ≤ limit (suc k)
  pub positive : 0 < limit 0

pub record Good (limit : ℕ → ℕ) (a : Places) : Type 0 where
  pub index : a.cur ≤ 1
  pub count : (k : ℕ) → a.cnt k ≡ total (weight k) a.n a.place
  pub fits : (i : ℕ) → i < a.n → Fits a (a.place i)
  pub distinct : (i j : ℕ) → i < a.n → j < a.n → i ≢ j → (a.place i).self ≢ (a.place j).self
  pub known : (i : ℕ) → i < a.n → (0 < (a.place i).self) × ((a.place i).self < limit a.forks)
  pub one_child :
      (i j w v w' v' : ℕ)
      → i < a.n
      → j < a.n
      → (a.place i).at ≡ child_of_watchdog w v
      → (a.place j).at ≡ child_of_watchdog w' v'
      → i ≡ j
