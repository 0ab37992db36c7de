-- ===== src/Api/Identity.antt =====
-- The directory of application users: the rows of packages/db/dfip_db/identity.py and
-- `InMemoryIdentityStore` of packages/api/dfip_api/identity_store.py. The stored hash of a password and
-- the fresh id of a user are arguments; a lookup that follows a write in the same call reads that write.
-- `create_client_user` and `create_publisher_user` are one step each, while the source gives its lock back
-- between the check for the username and the write.
use dfip_v.Prelude.{
  ℕ, ◌+◌, String, Bool, true, false, not, Option, none, some, List, [], ◌∷◌, ◌++◌, map, ◌==◌, ◌&&◌,
  ◌||◌, string_eq, filter, any, if◌then◌else◌,
}
use dfip_v.Prelude.Dict.{Dict, lookup, insert, erase, values, contains}
use dfip_v.Prelude.Result.{Result, ok, err}

pub record MembershipRow : Type 0 where
  pub client_id : String
  pub role : String
  pub code : Option String
  pub name : Option String

pub record IdentityRecord : Type 0 where
  pub user_id : String
  pub subject : String
  pub is_platform_admin : Bool
  pub memberships : List MembershipRow
  pub token_version : ℕ

pub record CredentialRecord : Type 0 where
  pub identity : IdentityRecord
  pub password_hash : Option String

-- `_by_subject` and `_by_user_id`
pub record IdentityStore : Type 0 where
  pub by_subject : Dict String CredentialRecord
  pub by_user_id : Dict String String

pub data IdentityError : Type 0 where
  duplicate_subject publisher_already_exists no_companies_for_setup : IdentityError

-- dfip_api/roles.py
abbrev pub is_allowed_role : String → Bool
is_allowed_role role =
    role == "admin" || role == "publisher" || role == "reader" || role == "client"

abbrev pub is_admin_role : String → Bool
is_admin_role role = role == "admin" || role == "publisher"

abbrev pub put_password_user : CredentialRecord → IdentityStore → IdentityStore
put_password_user c s = record {
  by_subject = insert c.identity.subject c s.by_subject;
  by_user_id = insert c.identity.user_id c.identity.subject s.by_user_id;
}

abbrev pub new_user : String → String → Option String → List MembershipRow → CredentialRecord
new_user user_id subject hash memberships = record {
  identity = record {
    user_id = user_id;
    subject = subject;
    is_platform_admin = false;
    memberships = memberships;
    token_version = 1;
  };
  password_hash = hash;
}

abbrev pub client_membership : String → MembershipRow
client_membership client_id = record {
  client_id = client_id;
  role = "client";
  code = none;
  name = none;
}

unfoldable pub create_client_user :
    String
    → String
    → Option String
    → String
    → IdentityStore
    → IdentityStore × Result IdentityError IdentityRecord
create_client_user user_id subject hash client_id s =
    let user = new_user user_id subject hash (client_membership client_id ∷ []) in
    if contains subject s.by_subject
    then (s, err duplicate_subject)
    else (put_password_user user s, ok user.identity)

-- a record that `inspector_exists` counts
abbrev pub inspects : CredentialRecord → Bool
inspects c = c.identity.is_platform_admin || any (λ m. is_admin_role m.role) c.identity.memberships

unfoldable pub inspector_exists : IdentityStore → Bool
inspector_exists s = any inspects (values s.by_subject)

abbrev pub is_empty {ℓ} : {A : Type ℓ} → List A → Bool
is_empty [] = true
is_empty (x ∷ xs) = false

unfoldable pub create_publisher_user :
    String
    → String
    → Option String
    → List MembershipRow
    → IdentityStore
    → IdentityStore × Result IdentityError IdentityRecord
create_publisher_user user_id subject hash memberships s =
    let user = new_user user_id subject hash memberships in
    if inspector_exists s
    then (s, err publisher_already_exists)
    else if is_empty memberships
    then (s, err no_companies_for_setup)
    else if contains subject s.by_subject
    then (s, err duplicate_subject)
    else (put_password_user user s, ok user.identity)

abbrev pub identity_of : Option CredentialRecord → Option IdentityRecord
identity_of none = none
identity_of (some c) = some c.identity

unfoldable pub get_by_subject : String → IdentityStore → Option IdentityRecord
get_by_subject subject s = identity_of (lookup subject s.by_subject)

abbrev pub with_identity : (IdentityRecord → IdentityRecord) → CredentialRecord → CredentialRecord
with_identity f c = record c { identity = f c.identity }

-- `_by_subject[subject] = ...` of a user that is found by id. Where the subject of an id has no record,
-- the source raises a KeyError; here the store stays.
abbrev pub rewrite_found :
    (IdentityRecord → IdentityRecord)
    → String
    → Option CredentialRecord
    → IdentityStore
    → IdentityStore
rewrite_found f subject none s = s
rewrite_found f subject (some c) s = record s {
  by_subject = insert subject (with_identity f c) s.by_subject;
}

abbrev pub rewrite_user :
    (IdentityRecord → IdentityRecord) → Option String → IdentityStore → IdentityStore
rewrite_user f none s = s
rewrite_user f (some subject) s = rewrite_found f subject (lookup subject s.by_subject) s

abbrev pub next_version : IdentityRecord → IdentityRecord
next_version i = record i { token_version = i.token_version + 1 }

abbrev pub version_of : Option IdentityRecord → Option ℕ
version_of none = none
version_of (some i) = some (i.token_version + 1)

abbrev pub next_version_of : Option String → IdentityStore → Option ℕ
next_version_of none s = none
next_version_of (some subject) s = version_of (identity_of (lookup subject s.by_subject))

unfoldable pub increment_token_version : String → IdentityStore → IdentityStore × Option ℕ
increment_token_version user_id s =
    let subject = lookup user_id s.by_user_id in
    (rewrite_user next_version subject s, next_version_of subject s)

abbrev pub renamed : String → String → MembershipRow → MembershipRow
renamed client_id name m = record m {
  name = if m.client_id == client_id then some name else m.name;
}

-- the loop of `apply_client_name` over all users
abbrev pub rename_all :
    String → String → Dict String CredentialRecord → Dict String CredentialRecord
rename_all client_id name [] = []
rename_all client_id name ((subject, c) ∷ d) =
    (
      subject,
      with_identity (λ i. record i { memberships = map (renamed client_id name) i.memberships }) c,
    )
    ∷ rename_all client_id name d

unfoldable pub apply_client_name : String → String → IdentityStore → IdentityStore
apply_client_name client_id name s = record s {
  by_subject = rename_all client_id name s.by_subject;
}

abbrev pub joined_membership : MembershipRow → IdentityRecord → IdentityRecord
joined_membership m i =
    if any (λ item. item.client_id == m.client_id) i.memberships
    then i
    else record i { memberships = i.memberships ++ (m ∷ []) }

unfoldable pub add_inspector_membership : String → MembershipRow → IdentityStore → IdentityStore
add_inspector_membership user_id m s =
    rewrite_user (joined_membership m) (lookup user_id s.by_user_id) s

abbrev pub remaining_memberships : String → IdentityRecord → List MembershipRow
remaining_memberships client_id i = filter (λ m. not (m.client_id == client_id)) i.memberships

-- one round of the loop of `drop_company`
abbrev pub drop_user : String → String → CredentialRecord → IdentityStore → IdentityStore
drop_user client_id subject c s =
    let remaining = remaining_memberships client_id c.identity in
    if is_empty remaining && not c.identity.is_platform_admin
    then record {
      by_subject = erase subject s.by_subject;
      by_user_id = erase c.identity.user_id s.by_user_id;
    }
    else record s {
      by_subject =
          insert subject (with_identity (λ i. record i { memberships = remaining }) c) s.by_subject;
    }

unfoldable pub drop_users : String → Dict String CredentialRecord → IdentityStore → IdentityStore
drop_users client_id [] s = s
drop_users client_id ((subject, c) ∷ users) s =
    drop_users client_id users (drop_user client_id subject c s)

unfoldable pub drop_company : String → IdentityStore → IdentityStore
drop_company client_id s = drop_users client_id s.by_subject s
