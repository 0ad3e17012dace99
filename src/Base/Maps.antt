-- ===== src/Base/Maps.antt =====
-- Redis key spaces as functions from keys to optional values.
use Prim.Native.String.{String}
use mathlib.Core.Path.{◌≡◌, fun_ext}
use mathlib.Core.Logic.{ite}
use native.Mathlib.Omega.{arith}
use stockev_qtask_list.Base.Tests.{str_dec}

module _ {ℓ} {V : Type ℓ} where
  -- SET, HSET, DEL (with `none`) of one key.
  abbrev pub update : (String → V) → String → V → String → V
  update m k v j = ite (str_dec k j) v (m j)

  pub update_self : (m : String → V) (k : String) (v : V) → update m k v k ≡ v
  update_self m k v = ground arith

  -- Writing back the value that a key has changes nothing.
  pub update_same : (m : String → V) (k : String) (v : V) → m k ≡ v → update m k v ≡ m
  update_same m k v e = fun_ext λ j. ground arith

  pub update_twice :
      (m : String → V) (k : String) (v w : V) → update (update m k v) k w ≡ update m k w
  update_twice m k v w = fun_ext λ j. ground arith
