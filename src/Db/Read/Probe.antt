-- ===== src/Db/Read/Probe.antt =====
-- What `key_may_exist` and `key_may_get` of src/db.rs tell about a key.
use rust_rocks.Common.{
  ◌≡◌, ap, [], Bool, Option, none, some, Bytes, if◌then◌else◌, arith, take-length, ◌&&◌,
  Option-cases, inl, inr,
}
use rust_rocks.Ffi.{Ptr, Outcome, done, fault}
use rust_rocks.Engine.{Engine}
use rust_rocks.Error.{Native}
use rust_rocks.Db.Requests.{family}
use rust_rocks.Db.Read.{
  key_may_exist, key_may_get, key_may_exist_cf, key_may_get_cf, assign_value, rust_vec_u8_assign,
}

-- What the engine's answer says: whether the key may exist, and its value where that was found.
abbrev pub probe_of : Bool × Bool × Bytes → Bool × Option Bytes
probe_of (may_exist, found, val) = (may_exist, if may_exist && found then some val else none)

-- An answer, or a crash of the library.
abbrev pub told : (E : Engine) → Native E → Option Bool → Outcome (Native E) Bool
told E w none = fault
told E w (some b) = done b w

assign_value_lem : (E : Engine) (val v : Bytes) → assign_value E val (some v) ≡ some val
unfolding rust_vec_u8_assign
assign_value_lem E val v = ap some (take-length val)

module _ (E : Engine) (w : Native E) (o : E.ReadOptions) (key : Bytes) where
  -- `key_may_exist` and `key_may_get` agree with the engine and so with each other: the key may
  -- exist exactly if the engine says so, a value is returned exactly if the engine also found one,
  -- and it is the whole of that value. Neither changes anything.
  pub key_may_get-probe_of :
      (key_may_exist E o key w ≡ done (probe_of (E.key_may_exist o key w.state)).0 w)
      × (key_may_get E o key w ≡ done (probe_of (E.key_may_exist o key w.state)) w)
  unfolding key_may_exist key_may_get
  key_may_get-probe_of =
      (ground arith, ground (arith, assign_value_lem E (E.key_may_exist o key w.state).2 []))

  -- If the handle at `p` leads to the column family `c`, then `key_may_get_cf` agrees with the
  -- engine's answer for `c`, and `key_may_exist_cf` tells what the engine says without a value, or
  -- is a fault if that call reads the null pointer. Neither changes anything.
  pub key_may_get_cf-probe_of :
      (p : Ptr) (c : E.Cf)
      → family E w.heap.cell p ≡ some c
      → (key_may_exist_cf E o p key w ≡ told E w (E.key_may_exist_cf_null o c key w.state))
        × (key_may_get_cf E o p key w ≡ done (probe_of (E.key_may_exist_cf o c key w.state)) w)
  unfolding key_may_exist_cf key_may_get_cf
  key_may_get_cf-probe_of p c h = (
    elim (Option-cases (E.key_may_exist_cf_null o c key w.state)) [
      | inl crash ↦ ground (arith, h, crash)
      | inr (b, answer) ↦ ground (arith, h, answer)
    ],
    ground (arith, h, assign_value_lem E (E.key_may_exist_cf o c key w.state).2 []),
  )

  -- If the handle at `p` leads to the column family `c`, then `key_may_exist` and `key_may_get` agree
  -- with the engine's answer for the default column family, and so with each other; `key_may_get_cf`
  -- agrees with its answer for `c`: a value is returned exactly if the engine found one, and it is
  -- the whole of that value. `key_may_exist_cf` tells what the engine says when it is given no place
  -- for a value, and is a fault if that call reads the null pointer. None of them changes anything.
  pub may_get-probe_of :
      (p : Ptr) (c : E.Cf)
      → family E w.heap.cell p ≡ some c
      → (key_may_exist E o key w ≡ done (probe_of (E.key_may_exist o key w.state)).0 w)
        × (key_may_get E o key w ≡ done (probe_of (E.key_may_exist o key w.state)) w)
        × (key_may_exist_cf E o p key w ≡ told E w (E.key_may_exist_cf_null o c key w.state))
        × (key_may_get_cf E o p key w ≡ done (probe_of (E.key_may_exist_cf o c key w.state)) w)
  may_get-probe_of p c h =
      let (exist, get) = key_may_get-probe_of in
      let (exist_cf, get_cf) = key_may_get_cf-probe_of p c h in (exist, get, exist_cf, get_cf)
