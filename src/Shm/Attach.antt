-- ===== src/Shm/Attach.antt =====
-- shm.c: `attach_sysvshm` and `attach_shared`. The system calls are an interface; a call that fails
-- and ends the program gives `none`.
use numactl.Base.{
  ℕ, ◌+◌, ◌-◌, ◌%◌, ◌^◌, Bool, true, false, not, Bytes, Option, some, none, ltb, ◌==◌,
  if◌then◌else◌,
}
use numactl.Shm.{Region, sysv_in_range, file_in_range, check_region}

-- `shmget` without IPC_CREAT, behind `sysvkey`, which may end the program too. Where it fails with
-- another error than ENOENT the code goes on with -1 as `shmfd`: `shmctl` or `shmat` then refuses
-- it, which ends the program.
pub data Found : Type 0 where
  existing : ℕ → Found
  no_entry refused : Found

-- The calls on System V segments: `shmget` without and with IPC_CREAT, `shmctl(IPC_STAT)`, `shmat`,
-- and the page size that `shmflags` asks for.
pub record Segments : Type 0 where
  pub get : Bytes → ℕ → Found
  pub create : Bytes → ℕ → Option ℕ
  pub size_of : ℕ → Option ℕ
  pub attach_at : ℕ → Option ℕ
  pub page_size : ℕ

abbrev bind_option : {A B : Type 0} → Option A → (A → Option B) → Option B
bind_option none f = none
bind_option (some a) f = f a

abbrev only_if : {A : Type 0} → Bool → A → Option A
only_if true a = some a
only_if false a = none

-- `shmfd`: a segment that is missing is created with the length and the offset.
abbrev get_or_create : Segments → Bytes → Region → Found → Option ℕ
get_or_create sys name r (existing fd) = some fd
get_or_create sys name r refused = none
get_or_create sys name r no_entry =
    if r.len == 0 then none else sys.create name ((r.len + r.offset) % 2 ^ 64)

-- A length of 0 stands for the length of the segment, which is checked again.
abbrev with_length : Segments → Region → ℕ → Option Region
with_length sys r fd =
    if r.len == 0
    then bind_option (sys.size_of fd) (λ size.
      let r' : Region = record r { len = size } in
      only_if (not (ltb (2 ^ 64 - 1 - r.offset) size)) r')
    else some r

abbrev mapped : Region → ℕ → ℕ → Option Region
mapped r ptr page =
    let r' : Region = record r { ptr = ptr; pagesize = page } in only_if (check_region r') r'

-- `attach_sysvshm`: the region that is attached.
unfoldable pub attach_sysvshm : Segments → Bytes → Region → Option Region
attach_sysvshm sys name r =
    if not (sysv_in_range r)
    then none
    else bind_option (get_or_create sys name r (sys.get name r.len)) (λ fd.
      bind_option (with_length sys r fd) (λ sized.
        bind_option (sys.attach_at fd)
          (λ ptr. mapped sized ((ptr + sized.offset) % 2 ^ 64) sys.page_size)))

-- The calls on files: `open`, and with O_CREAT; `fstat`, for the size and the block size;
-- `ftruncate`; and `mmap` of a length at an offset.
pub record Files : Type 0 where
  pub open_file : Bytes → Option ℕ
  pub create : Bytes → Option ℕ
  pub stat : ℕ → Option (ℕ × ℕ)
  pub truncate : ℕ → ℕ → Bool
  pub map : ℕ → ℕ → ℕ → Option ℕ

abbrev open_or_create : Files → Bytes → Region → Option ℕ → Option ℕ
open_or_create sys name r (some fd) = some fd
open_or_create sys name r none = if r.len == 0 then none else sys.create name

-- A file that is too short is made longer.
abbrev long_enough : Files → Region → ℕ → ℕ → Bool
long_enough sys r fd size =
    if ltb size ((r.len + r.offset) % 2 ^ 64)
    then sys.truncate fd ((r.len + r.offset) % 2 ^ 64)
    else true

-- `attach_shared`: the region is checked before it is mapped, with `shmptr` as it was.
unfoldable pub attach_shared : Files → Bytes → Region → Option Region
attach_shared sys name r =
    if not (file_in_range r)
    then none
    else bind_option (open_or_create sys name r (sys.open_file name)) (λ fd.
      bind_option (sys.stat fd) (λ st.
        if not (long_enough sys r fd st.0)
        then none
        else bind_option (mapped r r.ptr st.1) (λ checked.
          bind_option (sys.map fd checked.len checked.offset)
            (λ ptr. some (record checked { ptr = ptr })))))
