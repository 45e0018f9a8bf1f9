-- ===== src/SharedData/Mapping/Laws.antt =====
-- What the figurehead makes and what a process then finds.
use plr.Prelude.{
  ℕ, suc, ◌+◌, ◌*◌, ◌≤◌, ◌<◌, ◌≡◌, refl, inl, inr, Bool, true, false, Bool-cases, Option-cases,
  none, some, if-true, if-false, ℤ, pos, negsuc, eq_ℤ, ltb_ℤ, arith, ap, ◌∙◌, sym,
}
use plr.SharedData.{PlrData, init_shared_data}
use plr.SharedData.Names.{get_shm_name}
use plr.SharedData.Mapping.{
  ShmCalls, Pointers, Outcome, open_shm_file, size_of_int, shm_size, map_shm, after, modify_plr,
  create_shared_data, acquire_shared_data, figurehead_start,
}
use plr.SharedData.Mapping.Posix.{Object, ShmView, ShmLaws, Ends, fails, succeeds, Ends-map}
use plr.Core.Entry.{figurehead_init}
use plr.SharedData.ExtraShm.Laws.{int_of_size_lem}

mul_le_mul : (i n size : ℕ) → i < n → suc i * size ≤ n * size
mul_le_mul i n size h = grind arith

module _ {W : Type 0} (os : ShmCalls W) (plr_data_size proc_data_size : ℕ) (view : ShmView W)
    (laws : ShmLaws os view plr_data_size) where
  -- The data is mapped as a whole, and the pointers point to its two parts.
  pub record MapsAll (n_proc : ℕ) (o : Object) (p : Pointers) (w : W) : Type 0 where
    pub addr : ℕ
    pub plr_shm : p.plr_shm ≡ some addr
    pub all_proc_shm : p.all_proc_shm ≡ some (addr + plr_data_size)
    pub mapping : view.mapping w addr ≡ some (plr_data_size + n_proc * proc_data_size)
    pub object : view.object w ≡ some o

  opened :
      (create : Bool) (w : W)
      → ltb_ℤ (os.shm_open (get_shm_name os.getpgrp).1 create w).0 (pos 0) ≡ false
      → open_shm_file os plr_data_size proc_data_size create w
        ≡ os.shm_open (get_shm_name os.getpgrp).1 create w
  unfolding open_shm_file
  opened create w e = if-false _ _ e

  not_opened :
      (create : Bool) (w : W)
      → ltb_ℤ (os.shm_open (get_shm_name os.getpgrp).1 create w).0 (pos 0) ≡ true
      → open_shm_file os plr_data_size proc_data_size create w
        ≡ (negsuc 0, (os.shm_open (get_shm_name os.getpgrp).1 create w).1)
  unfolding open_shm_file
  not_opened create w e = if-true _ _ e

  -- The size of the data for `n_proc` processes is an `int`.
  abbrev pub IsInt : (n_proc : ℕ) → Type 0
  IsInt n_proc = plr_data_size + n_proc * proc_data_size < 2147483648

  shm_size_lem :
      (n_proc : ℕ)
      → IsInt n_proc
      → shm_size os plr_data_size proc_data_size n_proc
        ≡ pos (plr_data_size + n_proc * proc_data_size)
  shm_size_lem n_proc h = int_of_size_lem (plr_data_size + n_proc * proc_data_size) h

  map_shm-Ends :
      (n_proc : ℕ) (fd : ℤ) (p : Pointers) (w : W) (o : Object)
      → view.refers w fd ≡ true
      → view.object w ≡ some o
      → IsInt n_proc
      → Ends (MapsAll n_proc o) (map_shm os plr_data_size proc_data_size n_proc fd p w)
  unfolding map_shm
  map_shm-Ends n_proc fd p w o refers object fits =
      let size = size_of_int (shm_size os plr_data_size proc_data_size n_proc) in
      let same : size ≡ plr_data_size + n_proc * proc_data_size =
        ap size_of_int (shm_size_lem n_proc fits) in
      elim (Option-cases (os.mmap size fd w).0) [
        | inl e ↦ rw (e, map_shm) fails
        | inr (addr, e) ↦
            let m = laws.mapped size fd w addr refers e in
            let c = laws.closed fd (os.mmap size fd w).1 addr in
            rw (e, map_shm)
              (succeeds (record {
                addr = addr;
                plr_shm = refl;
                all_proc_shm = refl;
                mapping = c.1 ∙ m.2 ∙ ap some same;
                object = c.0 ∙ m.0 ∙ object;
              }))
      ]

  after-Ends :
      {P Q : Pointers → W → Type 0} {out : Outcome W} (k : Pointers → W → Outcome W)
      → Ends P out
      → ((p : Pointers) (w : W) → P p w → Ends Q (k p w))
      → Ends Q (after os plr_data_size proc_data_size out k)
  after-Ends k fails next = fails
  after-Ends k (succeeds x) next = next _ _ x

  -- A write through `plrShm`.
  modify_plr-Ends :
      (f : PlrData → PlrData) (n_proc : ℕ) (o : Object) (p : Pointers) (w : W)
      → MapsAll n_proc o p w
      → Ends
          (MapsAll n_proc (record o { plr = f o.plr }))
          (modify_plr os plr_data_size proc_data_size f p w)
  modify_plr-Ends f n_proc o p w m =
      let size = plr_data_size + n_proc * proc_data_size in
      let enough : plr_data_size ≤ plr_data_size + n_proc * proc_data_size = omega arith in
      let d = laws.loaded m.addr size w o m.mapping enough m.object in
      let t = laws.stored m.addr size (f (os.load m.addr w)) w o m.mapping enough m.object in
      rw (m.plr_shm, modify_plr)
        (succeeds (record {
          addr = m.addr;
          plr_shm = m.plr_shm;
          all_proc_shm = m.all_proc_shm;
          mapping = t.1;
          object = t.0 ∙ ap (λ e. some (record o { plr = f e })) d;
        }))

  create_shared_data-Ends :
      (n_proc : ℕ) (p : Pointers) (w : W)
      → IsInt n_proc
      → Ends
          (λ q v.
            (view.object w ≡ none)
            × MapsAll n_proc
                (record {
                  size = plr_data_size + n_proc * proc_data_size;
                  plr = init_shared_data n_proc;
                })
                q
                v)
          (create_shared_data os plr_data_size proc_data_size n_proc p w)
  unfolding create_shared_data init_shared_data
  create_shared_data-Ends n_proc p w fits =
      let made = os.shm_open (get_shm_name os.getpgrp).1 true w in
      let size = plr_data_size + n_proc * proc_data_size in
      let same = shm_size_lem n_proc fits in
      elim (Bool-cases (ltb_ℤ made.0 (pos 0))) [
        | inl e ↦
            rw (not_opened true w e, same, laws.bad_ftruncate (pos size) made.1, create_shared_data)
              fails
        | inr e ↦
            let c = laws.created w e in
            let grown = os.ftruncate made.0 (pos size) made.1 in
            elim (Bool-cases (eq_ℤ grown.0 (negsuc 0))) [
              | inl f ↦ rw (opened true w e, same, f, create_shared_data) fails
              | inr f ↦
                  let r = laws.resized made.0 size made.1 _ c.2 c.1 f in
                  let m = map_shm-Ends n_proc made.0 p grown.1 _ r.1 r.0 fits in
                  rw (opened true w e, same, f, create_shared_data)
                    (after-Ends _ m (λ q v x.
                      Ends-map (λ _ _ y. (c.0, y))
                        (modify_plr-Ends (λ d. record d { n_proc = n_proc }) n_proc _ q v x)))
            ]
      ]

  -- `plr_figureheadInit` comes back with -1, or with 0 after it has made a new shared file, large enough for
  -- the records of all processes, and mapped it as a whole, with the pointers at its two parts and
  -- the values in it that a start takes: the given ones, and 0 for the others. The number of processes
  -- is such that the size fits an `int`.
  pub figurehead_start-Ends :
      (n_proc pintool_mode pid : ℕ) (timeout : ℤ) (p : Pointers) (w : W)
      → IsInt n_proc
      → Ends
          (λ q v.
            (view.object w ≡ none)
            × MapsAll n_proc
                (record {
                  size = plr_data_size + n_proc * proc_data_size;
                  plr = figurehead_init n_proc pintool_mode pid timeout;
                })
                q
                v)
          (figurehead_start os plr_data_size proc_data_size n_proc pintool_mode pid timeout p w)
  unfolding figurehead_start figurehead_init
  figurehead_start-Ends n_proc pintool_mode pid timeout p w fits =
      let reaper = os.prctl_subreaper w in
      elim (Bool-cases (ltb_ℤ reaper.0 (pos 0))) [
        | inl e ↦ rw (e, figurehead_start) fails
        | inr e ↦
            let set : PlrData → PlrData = λ d. record d {
              figurehead_pid = pid;
              inside_plr_init_true = pintool_mode;
              watchdog_timeout = timeout;
            } in
            rw (e, figurehead_start)
              (after-Ends (modify_plr os plr_data_size proc_data_size set)
                (create_shared_data-Ends n_proc p reaper.1 fits)
                (λ q v x.
                  Ends-map (λ _ _ y. (sym (laws.subreaper w) ∙ x.0, y))
                    (modify_plr-Ends set n_proc _ q v x.1)))
      ]

  -- Place `i` of `allProcShm` lies in the mapping.
  abbrev pub Inside : (i n_proc : ℕ) → Pointers → W → Type 0
  Inside i n_proc q v =
      (base size start : ℕ) × (q.plr_shm ≡ some base)
      × (q.all_proc_shm ≡ some start)
      × (view.mapping v base ≡ some size)
      × (base + plr_data_size ≤ start)
      × (start + suc i * proc_data_size ≤ base + size)

  MapsAll-Inside :
      (i n_proc : ℕ) (o : Object) (q : Pointers) (v : W)
      → i < n_proc
      → MapsAll n_proc o q v
      → Inside i n_proc q v
  MapsAll-Inside i n_proc o q v lt x =
      let room = mul_le_mul i n_proc proc_data_size lt in
      (
        x.addr,
        plr_data_size + n_proc * proc_data_size,
        x.addr + plr_data_size,
        x.plr_shm,
        x.all_proc_shm,
        x.mapping,
        omega arith,
        omega (arith, room),
      )

  -- `plrSD_acquireSharedData` in a process, with a shared file as the figurehead has made it, comes
  -- back with -1, or with 0 after it has mapped as much of it as there is, found the number of
  -- processes in it and changed nothing in it; then the record of each of these processes lies in
  -- the mapping, behind the common data. The number of processes is such that the size fits an
  -- `int`.
  pub acquire_shared_data-Ends :
      (n_proc i : ℕ) (d : PlrData) (p : Pointers) (w : W)
      → view.object w ≡ some (record { size = plr_data_size + n_proc * proc_data_size; plr = d })
      → d.n_proc ≡ n_proc
      → i < n_proc
      → IsInt n_proc
      → Ends
          (λ q v.
            MapsAll n_proc (record { size = plr_data_size + n_proc * proc_data_size; plr = d }) q v
            × Inside i n_proc q v)
          (acquire_shared_data os plr_data_size proc_data_size p w)
  unfolding acquire_shared_data
  acquire_shared_data-Ends n_proc i d p w object same lt fits =
      let file = os.shm_open (get_shm_name os.getpgrp).1 false w in
      elim (Bool-cases (ltb_ℤ file.0 (pos 0))) [
        | inl e ↦
            rw (not_opened false w e, laws.bad_mmap plr_data_size file.1, acquire_shared_data) fails
        | inr e ↦
            let f = laws.found w e in
            let first = os.mmap plr_data_size file.0 file.1 in
            elim (Option-cases first.0) [
              | inl g ↦ rw (opened false w e, g, acquire_shared_data) fails
              | inr (addr, g) ↦
                  let m = laws.mapped plr_data_size file.0 file.1 addr f.1 g in
                  let here = m.0 ∙ f.0 ∙ object in
                  let read = laws.loaded addr plr_data_size first.1 _ m.2 (omega arith) here in
                  let gone = os.munmap addr plr_data_size first.1 in
                  let u = laws.unmapped addr plr_data_size file.0 first.1 in
                  let number = ap (λ (r : PlrData). r.n_proc) read ∙ same in
                  elim (Bool-cases (ltb_ℤ gone.0 (pos 0))) [
                    | inl h ↦
                        rw (opened false w e, g, opened false w e, h, acquire_shared_data) fails
                    | inr h ↦
                        let last =
                          map_shm-Ends n_proc file.0 (record p { plr_shm = some addr }) gone.1 _
                            (u.1 ∙ m.1) (u.0 ∙ here) fits in
                        rw (opened false w e, g, opened false w e, h, number, acquire_shared_data)
                          (Ends-map (λ q v x. (x, MapsAll-Inside i n_proc _ q v lt x)) last)
                  ]
            ]
      ]
