-- ===== src/Preload/Files/Follows.antt =====
-- The part of a slave in `open`, `fopen` and `unlink`, from what it reads in the area.
use plr.Prelude.{
  ℕ, ◌≡◌, refl, inl, inr, Bool-cases, some, List, [], ◌∷◌, if◌then◌else◌, ℤ, pos, eq_ℤ, ltb_ℤ,
}
use plr.SharedData.ExtraShm.{SystemCalls, Area, copy_from_shm}
use plr.Preload.Wrapper.{Local, Libc, Act, Caller, ◌>>=◌}
use plr.Preload.Files.{without_excl, open_slave, fopen_slave, unlink_slave}

-- The action comes to an end with this value, this memory and this area.
abbrev pub Yields : {W : Type 0} → Act W → Caller W → ℤ × Local W → Area → Type 0
Yields act s result b = act s ≡ some (result.0, record { area = b; here = result.1 })

module _ {W : Type 0} (libc : Libc W) (calls : SystemCalls) (err ret : ℤ) (s : Caller W) (b : Area)
    (got : copy_from_shm calls 2 0 s.area ≡ some (err ∷ ret ∷ [], b)) where
  pub unlink_slave-Yields :
      Yields (unlink_slave libc calls) s (ret, record (s.here) { errno = err }) b
  unfolding unlink_slave
  unlink_slave-Yields = rw (got, unlink_slave, ◌>>=◌) refl

  pub open_slave-Yields :
      (pathname : List ℕ) (flags mode : ℕ)
      → Yields
          (open_slave libc calls pathname flags mode)
          s
          (if ltb_ℤ ret (pos 0)
            then (ret, record (s.here) { errno = err })
            else libc.libc_open pathname (without_excl flags) mode s.here)
          b
  unfolding open_slave
  open_slave-Yields pathname flags mode = elim (Bool-cases (ltb_ℤ ret (pos 0))) [
    | inl e ↦ rw (got, e, open_slave, ◌>>=◌) refl
    | inr e ↦ rw (got, e, open_slave, ◌>>=◌) refl
  ]

-- `fopen` passes on whether the master has got `NULL`.
pub fopen_slave-Yields :
    {W : Type 0} (libc : Libc W) (calls : SystemCalls) (err ret : ℤ) (s : Caller W) (b : Area)
    (unset : ℤ) (path mode : List ℕ)
    → copy_from_shm calls 2 0 s.area
      ≡ some (err ∷ (if eq_ℤ ret (pos 0) then pos 1 else pos 0) ∷ [], b)
    → Yields
        (fopen_slave libc calls unset path mode)
        s
        (if eq_ℤ ret (pos 0)
          then (unset, record (s.here) { errno = err })
          else libc.libc_fopen path mode s.here)
        b
unfolding fopen_slave
fopen_slave-Yields libc calls err ret s b unset path mode got =
    elim (Bool-cases (eq_ℤ ret (pos 0))) [
      | inl e ↦ rw (got, e, fopen_slave, ◌>>=◌) refl
      | inr e ↦ rw (got, e, fopen_slave, ◌>>=◌) refl
    ]
