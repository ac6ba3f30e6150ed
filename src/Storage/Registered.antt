-- ===== src/Storage/Registered.antt =====
-- What is registered stays registered until it is taken out.
use simple_os.Base.{ℕ, ◌-◌, ◌^◌, ◌≡◌, ◌≢◌, refl, sym, ap, ◌∙◌, ==_ne, ==_self, if◌then◌else◌}
use simple_os.Kernel.{update}
use simple_os.Storage.{register_file_system, unregister_file_system}

register_file_system-free :
    (type id : ℕ) (fs_type : ℕ → ℕ)
    → fs_type id ≡ 0
    → register_file_system type id fs_type ≡ (0, update fs_type id type)
unfolding register_file_system
register_file_system-free type id fs_type free = rw free refl

register_file_system-taken :
    (type id : ℕ) (fs_type : ℕ → ℕ)
    → fs_type id ≢ 0
    → register_file_system type id fs_type ≡ (2 ^ 32 - 1, fs_type)
unfolding register_file_system
register_file_system-taken type id fs_type used = rw (==_ne (fs_type id) 0 used) refl

-- A file system that is registered at a free index is found there; another one cannot be registered
-- at the same index as long as it is there; after it is taken out, the index is free again.
register_file_system-unregister :
    (type other id : ℕ) (fs_type : ℕ → ℕ)
    → type ≢ 0
    → fs_type id ≡ 0
    → let (first, table) = register_file_system type id fs_type in
      (first ≡ 0)
      × (table id ≡ type)
      × (register_file_system other id table ≡ (2 ^ 32 - 1, table))
      × (unregister_file_system id table id ≡ 0)
unfolding unregister_file_system
register_file_system-unregister type other id fs_type some free =
    let e = register_file_system-free type id fs_type free in
    let there : update fs_type id type id ≡ type =
      ap (λ b. if b then type else fs_type id) (==_self id) in
    let empty : update (update fs_type id type) id 0 id ≡ 0 =
      ap (λ b. if b then 0 else update fs_type id type id) (==_self id) in
    rw e (
      refl,
      there,
      register_file_system-taken other id (update fs_type id type) (λ z. some (sym there ∙ z)),
      empty,
    )
