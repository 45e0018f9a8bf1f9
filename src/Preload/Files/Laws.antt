-- ===== src/Preload/Files/Laws.antt =====
-- The slaves after a call of the master on a path.
use plr.Prelude.{
  ◌<◌, ℕ, ◌≡◌, refl, some, List, [], ◌∷◌, length, if◌then◌else◌, ℤ, pos, eq_ℤ, ltb_ℤ, arith, ap,
  ◌∙◌,
}
use plr.SharedData.ExtraShm.{SystemCalls, Area, copy_to_shm, copy_from_shm, read_cells}
use plr.SharedData.ExtraShm.Laws.{
  Succeed, Mapped, copy_to_shm-writes, copy_from_shm-reads, read_cells-write_cells,
}
use plr.Preload.Wrapper.{Libc, Caller, ◌>>=◌}
use plr.Preload.ReadWrite.Laws.{seen_by}
use plr.Preload.Files.{
  without_excl, open_master, open_slave, fopen_master, fopen_slave, unlink_master, unlink_slave,
}
use plr.Preload.Files.Follows.{unlink_slave-Yields, open_slave-Yields, fopen_slave-Yields}

module _ {W : Type 0} (libc : Libc W) (calls calls' : SystemCalls) (ok : Succeed calls)
    (ok' : Succeed calls') (c slave : Caller W) (mapped : Mapped c.area)
    (mapped' : Mapped (seen_by slave.area c.area)) where
  -- What is copied to the start of the area a slave reads there.
  exchange_from :
      (area : Area) (shm_dat : List ℤ)
      → length shm_dat < 2147483648
      → Mapped area
      → Mapped (seen_by slave.area area)
      → (a b : Area) × (copy_to_shm calls shm_dat 0 area ≡ some a)
        × (copy_from_shm calls' (length shm_dat) 0 (seen_by slave.area a) ≡ some (shm_dat, b))
  exchange_from area shm_dat small m m' =
      let w = copy_to_shm-writes calls shm_dat 0 area (omega (arith, small)) ok m in
      let r =
        copy_from_shm-reads calls' (length shm_dat) 0 (seen_by slave.area w.0)
          (omega (arith, w.5, w.6)) ok' (omega (arith, m'.0, w.4), m'.1) in
      let back =
        ap (read_cells (length shm_dat) 0) w.2 ∙ read_cells-write_cells 0 shm_dat area.cells in
      (w.0, r.0, w.1, r.1 ∙ ap (λ xs. some (xs, r.0)) back)

  exchange :
      (shm_dat : List ℤ)
      → length shm_dat < 2147483648
      → (a b : Area) × (copy_to_shm calls shm_dat 0 c.area ≡ some a)
        × (copy_from_shm calls' (length shm_dat) 0 (seen_by slave.area a) ≡ some (shm_dat, b))
  exchange shm_dat small = exchange_from c.area shm_dat small mapped mapped'

  -- The same behind a copy of nothing.
  exchange_twice :
      (shm_dat : List ℤ)
      → length shm_dat < 2147483648
      → (z a b : Area) × (copy_to_shm calls [] 0 c.area ≡ some z)
        × (copy_to_shm calls shm_dat 0 z ≡ some a)
        × (copy_from_shm calls' (length shm_dat) 0 (seen_by slave.area a) ≡ some (shm_dat, b))
  exchange_twice shm_dat small =
      let w = copy_to_shm-writes calls [] 0 c.area (omega arith) ok mapped in
      let (a, b, sent, got) =
        exchange_from w.0 shm_dat small w.3 (omega (arith, mapped'.0, w.4), mapped'.1) in
      (w.0, a, b, w.1, sent, got)

  -- `unlink` is done once: the slave leaves everything outside of the program alone and returns the
  -- value and the `errno` of the master's call, if the system calls for shared memory succeed.
  unlink_once :
      (pathname : List ℕ)
      → (m t : Caller W) × (unlink_master libc calls pathname c
          ≡ some ((libc.libc_unlink pathname c.here).0, m))
        × (unlink_slave libc calls' (record slave { area = seen_by slave.area m.area })
            ≡ some ((libc.libc_unlink pathname c.here).0, t))
        × (m.here ≡ (libc.libc_unlink pathname c.here).1)
        × (t.here ≡ record (slave.here) { errno = m.here.errno })
  unfolding unlink_master
  unlink_once pathname =
      let (ret, l) = libc.libc_unlink pathname c.here in
      let (a, b, sent, got) = exchange (l.errno ∷ ret ∷ []) (omega arith) in
      (
        record { area = a; here = l },
        record { area = b; here = record (slave.here) { errno = l.errno } },
        rw (sent, unlink_master, ◌>>=◌) refl,
        unlink_slave-Yields libc calls' l.errno ret (record slave { area = seen_by slave.area a }) b
            got,
        refl,
        refl,
      )

  -- `open` in a slave, if the system calls for shared memory succeed: where the master's call has
  -- failed, the slave opens nothing and returns the same value and `errno`; else it opens the file for
  -- itself with the same arguments but for `O_EXCL`, and returns what that call does.
  open_follows :
      (pathname : List ℕ) (flags mode : ℕ)
      → (m t : Caller W) × (ret : ℤ) × (open_master libc calls pathname flags mode c
          ≡ some ((libc.libc_open pathname flags mode c.here).0, m))
        × (m.here ≡ (libc.libc_open pathname flags mode c.here).1)
        × (open_slave libc calls' pathname flags mode
              (record slave { area = seen_by slave.area m.area })
            ≡ some (ret, t))
        × ((ret, t.here) ≡ (
            if ltb_ℤ (libc.libc_open pathname flags mode c.here).0 (pos 0)
            then (
              (libc.libc_open pathname flags mode c.here).0,
              record (slave.here) { errno = m.here.errno },
            )
            else libc.libc_open pathname (without_excl flags) mode slave.here))
  unfolding open_master
  open_follows pathname flags mode =
      let (ret, l) = libc.libc_open pathname flags mode c.here in
      let (z, a, b, empty, sent, got) = exchange_twice (l.errno ∷ ret ∷ []) (omega arith) in
      let result =
        if ltb_ℤ ret (pos 0)
        then (ret, record (slave.here) { errno = l.errno })
        else libc.libc_open pathname (without_excl flags) mode slave.here in
      (
        record { area = a; here = l },
        record { area = b; here = result.1 },
        result.0,
        rw (empty, sent, open_master, ◌>>=◌) refl,
        refl,
        open_slave-Yields libc calls' l.errno ret (record slave { area = seen_by slave.area a }) b
            got pathname flags mode,
        refl,
      )

  -- `fopen` in a slave, if the system calls for shared memory succeed: where the master's call has
  -- succeeded the slave opens the file for itself; where the master has got `NULL`, the slave takes the
  -- `errno` and returns whatever its local variable `ret` held before, which need not be `NULL`.
  pub fopen_follows :
      (unset : ℤ) (path mode : List ℕ)
      → (m t : Caller W) × (ret : ℤ) × (fopen_master libc calls path mode c
          ≡ some ((libc.libc_fopen path mode c.here).0, m))
        × (m.here ≡ (libc.libc_fopen path mode c.here).1)
        × (fopen_slave libc calls' unset path mode
              (record slave { area = seen_by slave.area m.area })
            ≡ some (ret, t))
        × ((ret, t.here) ≡ (
            if eq_ℤ (libc.libc_fopen path mode c.here).0 (pos 0)
            then (unset, record (slave.here) { errno = m.here.errno })
            else libc.libc_fopen path mode slave.here))
  unfolding fopen_master
  fopen_follows unset path mode =
      let (ret, l) = libc.libc_fopen path mode c.here in
      let (z, a, b, empty, sent, got) =
        exchange_twice (l.errno ∷ (if eq_ℤ ret (pos 0) then pos 1 else pos 0) ∷ []) (omega arith) in
      let result =
        if eq_ℤ ret (pos 0)
        then (unset, record (slave.here) { errno = l.errno })
        else libc.libc_fopen path mode slave.here in
      (
        record { area = a; here = l },
        record { area = b; here = result.1 },
        result.0,
        rw (empty, sent, fopen_master, ◌>>=◌) refl,
        refl,
        fopen_slave-Yields libc calls' l.errno ret (record slave { area = seen_by slave.area a }) b
            unset path mode got,
        refl,
      )
