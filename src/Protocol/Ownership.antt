-- ===== src/Protocol/Ownership.antt =====
-- The life of FileDescriptor objects, of include/kafka/protocol/file_descriptor.hpp: which of them
-- closes which descriptor. A value of `fd_` below 0 is `none`.
use kafka_cpp_server.Prelude.{ℕ, ◌≡◌, refl, List, [], ◌∷◌, none, some, ◌⊎◌, inl, inr}
use kafka_cpp_server.Protocol.Outcome.{Outcome, ok, throw, system_error}
use kafka_cpp_server.Protocol.FileDescriptor.{SysResult, failed, done}
use kafka_cpp_server.Protocol.Owners.{
  Owned, to_close, Owner, Objects, Lives, Balanced, life_balance,
}

-- `FileDescriptor(int fd)`
unfoldable pub from_int : ℕ → Owned
from_int fd = some fd

-- `FileDescriptor(const char *path, int mode)`, by the result of `open`.
unfoldable pub from_path : SysResult ℕ → Outcome Owned
from_path (done fd) = ok (some fd)
from_path failed = throw (system_error "open")

-- The move constructor, `std::exchange(other.fd_, -1)`: the new object and what is left of the other.
unfoldable pub move_construct : Owned → Owned × Owned
move_construct other = (other, none)

-- The move assignment, `std::swap(fd_, other.fd_)`.
unfoldable pub move_assign : Owned → Owned → Owned × Owned
move_assign this other = (other, this)

-- The destructor, with the descriptors that it closes.
unfoldable pub destroy : Owned → List ℕ
destroy none = []
destroy (some fd) = fd ∷ []

-- One of the two constructors.
abbrev pub Constructs : ℕ → Owned → Type 0
Constructs fd object = (object ≡ from_int fd) ⊎ (from_path (done fd) ≡ ok object)

pub Constructs-owner : (fd : ℕ) (object : Owned) → Constructs fd object → object ≡ some fd
unfolding from_int from_path
Constructs-owner fd object (inl e) = e
Constructs-owner fd object (inr e) = opened_object e
  where
    opened_object :
        {fd : ℕ} {object : Owned}
        → ◌≡◌ {A = Outcome Owned} (ok (some fd)) (ok object)
        → object ≡ some fd
    opened_object e = cc

pub destroy_lem : (object : Owned) → destroy object ≡ to_close object
unfolding destroy
destroy_lem none = refl
destroy_lem (some fd) = refl

pub move_construct_lem :
    (object : Owned) → ((move_construct object).0 ≡ object) × ((move_construct object).1 ≡ none)
unfolding move_construct
move_construct_lem object = (refl, refl)

pub move_assign_lem :
    (this other : Owned)
    → ((move_assign this other).0 ≡ other) × ((move_assign this other).1 ≡ this)
unfolding move_assign
move_assign_lem this other = (refl, refl)

abbrev pub file_descriptors : Owner Owned
file_descriptors = record {
  Makes = Constructs;
  moved = move_construct;
  assigned = move_assign;
  closes = destroy;
  owned = λ object. object;
  makes_owner = Constructs-owner;
  moved_owner = move_construct_lem;
  assigned_owner = move_assign_lem;
  closes_owned = destroy_lem;
}

-- The kernel hands over only descriptors that are not open. Then after any sequence of constructions,
-- moves, assignments and destructions of FileDescriptor objects, each descriptor was closed
-- once for each time that it was handed over, but for the last time if a live object owns it; and
-- no two live objects own it.
pub Lives-Balanced :
    {s : Objects Owned} (n : ℕ) → Lives file_descriptors s → Balanced file_descriptors n s
Lives-Balanced n lives = life_balance file_descriptors n lives
