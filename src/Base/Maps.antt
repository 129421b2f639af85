-- ===== src/Base/Maps.antt =====
-- Functions from numbers, changed at one place: the memory behind pointers, and tables by
-- descriptor.
use Prim.Native.Nat.{ℕ}
use base_linux.Base.Tests.{◌==◌, if◌then◌else◌}

abbrev pub update {ℓ} : {A : Type ℓ} → (ℕ → A) → ℕ → A → ℕ → A
update f i a j = if j == i then a else f j
