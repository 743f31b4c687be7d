-- ===== src/Accounts/Calls.antt =====
-- All calls of the role service and of the user service, in sequence.
use golang_cms.Prelude.{String, List, [], ◌∷◌, Option}
use golang_cms.AppError.{Result, ◌>>=◌}
use golang_cms.Accounts.Store.{AccountEnv, AccessDb}
use golang_cms.Accounts.Users.{UserStatus}
use golang_cms.Accounts.Roles.{RoleCall, role_call, without_value}
use golang_cms.Accounts.UserCalls.{CreateUserRequest, create_user, update_phone, set_status}
use golang_cms.Accounts.Ended.{Ended}
use golang_cms.Accounts.Sound.{IsSound}

-- A call of either service.
pub data AccountCall : Type 0 where
  changes_roles : RoleCall → AccountCall
  creates_user : CreateUserRequest → AccountCall
  sets_status : String → Option UserStatus → AccountCall
  updates_phone : String → String → AccountCall

unfoldable pub account_call : AccountEnv → AccountCall → AccessDb → Result (Unit {0}) × AccessDb
unfolding role_call create_user set_status update_phone without_value
account_call env (changes_roles call) db = role_call env call db
account_call env (creates_user request) db = without_value (create_user env request db)
account_call env (sets_status id status) db = without_value (set_status env id status db)
account_call env (updates_phone id phone) db = without_value (update_phone env id phone db)

abbrev StaysSound : AccessDb → Type 0
StaysSound db = IsSound db.tables

-- The calls, one behind the other, whether they fail or succeed.
unfoldable pub run_account_calls : List (AccountEnv × AccountCall) → AccessDb → AccessDb
unfolding account_call
run_account_calls [] db = db
run_account_calls ((env, call) ∷ calls) db = run_account_calls calls (account_call env call db).1
