-- ===== src/Proto/Getters.antt =====
-- proto/pkg/example.pb.go: the generated getters that the program calls on a pointer that may be
-- nil.
use grpc_example.Common.{String, ℤ, Option, none, some, List}
use grpc_example.Proto.{Profile}

module _ {T : Type 0} where
  unfoldable pub get_preferences : Option (Profile T) → Option (List (String × ℤ))
  get_preferences none = none
  get_preferences (some p) = p.preferences

  unfoldable pub get_display_name : Option (Profile T) → String
  get_display_name none = ""
  get_display_name (some p) = p.display_name

  unfoldable pub get_bio : Option (Profile T) → String
  get_bio none = ""
  get_bio (some p) = p.bio

  unfoldable pub get_avatar_url : Option (Profile T) → String
  get_avatar_url none = ""
  get_avatar_url (some p) = p.avatar_url
