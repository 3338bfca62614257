-- ===== src/Tests/Platform.antt =====
-- A platform for the tests: a storage format for users that is read back.
use flash_pay.Prelude.{
  zero, suc, Text, text, ◌≡◌, ◌∙◌, refl, ap, true, some, [], ◌∷◌, is_nonempty, text_eq,
}
use flash_pay.Prelude.Json.{Json, string, object, end, field, property}
use flash_pay.Auth.Session.{Role, admin, operator, role_text, User, Platform, valid_user}
use flash_pay.Auth.Session.Laws.{StoresUsers}

-- Each unit after a 1, and a 0 at the end.
abbrev write_text : Text → Text → Text
write_text [] rest = 0 ∷ rest
write_text (c ∷ t) rest = 1 ∷ c ∷ write_text t rest

abbrev read_text : Text → Text × Text
read_text [] = ([], [])
read_text (zero ∷ s) = ([], s)
read_text (suc n ∷ []) = ([], [])
read_text (suc n ∷ c ∷ s) = let r = read_text s in (c ∷ r.0, r.1)

read_text-write_text : (t rest : Text) → read_text (write_text t rest) ≡ (t, rest)
read_text-write_text [] rest = refl
read_text-write_text (c ∷ t) rest =
    ap (λ (r : Text × Text). (c ∷ r.0, r.1)) (read_text-write_text t rest)

abbrev write_user : User → Text
write_user u =
    write_text u.id (write_text u.name (write_text u.email (write_text (role_text u.role) [])))

abbrev user_value : Text → Text → Text → Text → Json
user_value id name email role = object (
    field (text "id") (string id) (
      field (text "name") (string name)
        (field (text "email") (string email) (field (text "role") (string role) end))))

abbrev read_user : Text → Json
read_user s =
    let id = read_text s in
    let name = read_text id.1 in
    let email = read_text name.1 in user_value id.0 name.0 email.0 (read_text email.1).0

abbrev pub test_platform : Platform
test_platform = record {
  json_parse = λ t. some (read_user t);
  stringify_user = write_user;
  atob = λ t. some t;
  now = 0;
}

valid_user-user_value :
    (id name email : Text) (r : Role)
    → valid_user (user_value id name email (role_text r))
      ≡ some (record { id = id; name = name; email = email; role = r })
unfolding valid_user property text_eq
valid_user-user_value id name email admin = refl
valid_user-user_value id name email operator = refl

read_user-write_user :
    (u : User) → read_user (write_user u) ≡ user_value u.id u.name u.email (role_text u.role)
read_user-write_user u =
    let d = role_text u.role in
    let c = write_text u.email (write_text d []) in
    let b = write_text u.name c in
    rw
      (
        read_text-write_text u.id b,
        read_text-write_text u.name c,
        read_text-write_text u.email (write_text d []),
        read_text-write_text d [],
      )
      refl

write_user-nonempty : (t rest : Text) → is_nonempty (write_text t rest) ≡ true
write_user-nonempty [] rest = refl
write_user-nonempty (c ∷ t) rest = refl

pub test_platform-StoresUsers : StoresUsers test_platform
test_platform-StoresUsers = record {
  reads_back = λ u.
      ap valid_user (read_user-write_user u) ∙ valid_user-user_value u.id u.name u.email u.role;
  nonempty = λ u. write_user-nonempty u.id _;
}
