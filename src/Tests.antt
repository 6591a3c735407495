-- ===== src/Tests.antt =====
-- The users, stores and libraries of the tests. An instant is a `T` of its own, its nanoseconds.
pub mod Memory
pub mod Locks
pub mod Server
pub mod Auth
pub mod Interceptors
pub mod Concurrent
pub mod Database
pub mod Programs
pub mod Startup
pub mod Client
pub mod TokenGen
pub mod Ux
pub mod Postgres
use grpc_example.Common.{ℕ, String, ℤ, pos, ◌-ℤ◌, true, Option, none, some, List, [], ◌∷◌}
use grpc_example.Proto.{guest, member, admin, active, Address, Profile, User, Timestamps}
use grpc_example.Common.Assoc.{lookup, insert, delete, has}
use grpc_example.Clone.{clone_user}
use grpc_example.Memory.{
  since, MemoryStorage, add_user, get_user, update_user, delete_user, count, list_from, list_users,
  by_role_from, list_users_by_role,
}
use grpc_example.Memory.Laws.{step, run}
use grpc_example.Server.{Runtime}

abbrev pub time_of : Option ℤ → ℤ
time_of none = pos 0
time_of (some t) = t

abbrev pub ts : Timestamps ℤ
ts = record { make = λ t. t; as_time = time_of }

abbrev pub rt : Runtime ℤ ℤ
rt = record {
  timestamps = ts;
  as_duration = λ d. d;
  error_text = λ e. "error";
  role_text = λ r. "role";
  activity_text = λ a. "activity";
}

abbrev pub home : Address
home = record {
  type = pos 0;
  street = "1 Main St";
  city = "Springfield";
  state = "IL";
  postal_code = "62701";
  country = "USA";
  is_primary = true;
}

abbrev pub ann_profile : Profile ℤ
ann_profile = record {
  display_name = "Ann";
  bio = "";
  avatar_url = "";
  date_of_birth = none;
  preferences = some (("theme", pos 1) ∷ []);
}

abbrev pub ann : User ℤ
ann = record {
  id = 1;
  role = admin;
  create_date = some (pos 5);
  username = "ann";
  email = "ann@example.com";
  phone = "";
  profile = some ann_profile;
  tags = "vip" ∷ [];
  metadata = some (("team", "core") ∷ []);
  status = active;
  last_login = none;
  addresses = some home ∷ none ∷ [];
}

abbrev pub bob : User ℤ
bob = record ann { id = 2; role = member; username = "bob"; create_date = none }

abbrev pub stored_ann : User ℤ
stored_ann = record ann { email = "" }

abbrev pub store : MemoryStorage ℤ
store = record { users = (1, stored_ann) ∷ [] }

abbrev pub in_order : List (ℕ × User ℤ) → List (ℕ × User ℤ)
in_order l = l

-- The bodies of the in-memory backend, for what is computed.
unfoldable pub backend : Unit {0}
unfolding ◌-ℤ◌ clone_user since lookup insert delete has add_user get_user update_user delete_user
    count list_from list_users by_role_from list_users_by_role step run
backend = tt
