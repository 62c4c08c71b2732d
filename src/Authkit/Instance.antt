-- ===== src/Authkit/Instance.antt =====
-- The store of the testkit package offers the interfaces. The clock that a method of it reads is the
-- one of the call.
use gouncer.Base.{some}
use gouncer.Core.Platform.{Platform, Env}
use gouncer.Go.Strings.{to_lower}
use gouncer.Authkit.Stores.{AuthStore, InviteStore, AdminStore}
use gouncer.Testkit.State.{Store}
use gouncer.Testkit.Accounts
use gouncer.Testkit.Sessions
use gouncer.Testkit.Guard
use gouncer.Testkit.Tokens

abbrev pub auth_store : AuthStore Store
auth_store = record {
  create_user = Accounts.create_user;
  user_by_email = Accounts.user_by_email;
  create_session = Sessions.create_session;
  user_by_session = Sessions.user_by_session;
  delete_session = Sessions.delete_session;
}

abbrev pub invite_store : Env → InviteStore Store
invite_store env = record {
  base = auth_store;
  create_token = Tokens.create_token env.now;
  replace_token = Tokens.replace_token;
  activate_by_token = Tokens.activate_by_token;
  reset_by_token = Tokens.reset_by_token;
}

abbrev pub admin_store : Platform → AdminStore Store
admin_store platform = record {
  base = auth_store;
  list_users = Accounts.list_users (to_lower platform.to_lower);
  set_user_disabled_under_cover = Guard.set_user_disabled_under_cover;
  set_user_role = Guard.set_user_role;
  set_user_role_from = Guard.set_user_role_from;
  set_user_disabled_from = Guard.set_user_disabled_from;
  user_by_id = some Accounts.user_by_id;
}
