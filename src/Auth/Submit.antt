-- ===== src/Auth/Submit.antt =====
-- apps/frontend/src/pages/LoginPage.tsx and RegisterPage.tsx: the state of the forms and their
-- handlers, `handleSubmit` cut at its request.
pub mod Laws
use flash_pay.Prelude.{
  Text, text, Bool, true, false, Option, none, some, List, [], if◌then◌else◌, trim,
}
use flash_pay.Prelude.Json.{Json}
use flash_pay.Failure.{Failure}
use flash_pay.Auth.Session.{AuthState, AuthResponse, Storage, Platform, set_credentials}
use flash_pay.Auth.Forms.{
  LoginFormValues, RegisterFormValues, LoginErrors, RegisterErrors, validate_login_form,
  validate_register_form, has_login_errors, has_register_errors, get_auth_error_message,
  has_status_code,
}
use flash_pay.Auth.Routing.{default_auth_redirect, resolve_post_login_redirect}

pub record LoginRequest : Type 0 where
  pub email : Text
  pub password : Text

pub record RegisterRequest : Type 0 where
  pub name : Text
  pub email : Text
  pub password : Text

pub record LoginState : Type 0 where
  pub values : LoginFormValues
  pub errors : LoginErrors
  pub submit_error : Option Text

pub record RegisterState : Type 0 where
  pub values : RegisterFormValues
  pub errors : RegisterErrors
  pub submit_error : Option Text

-- What the request gives: a response, or the error that `unwrap` throws.
pub data Reply : Type 0 where
  accepted : AuthResponse → Reply
  refused : Failure → Reply

pub data LoginField : Type 0 where
  email_field password_field : LoginField

-- `handleChange` of the login.
unfoldable pub change_login : LoginState → LoginField → Text → LoginState
change_login s email_field value = record {
  values = record s.values { email = value };
  errors = record s.errors { email = none };
  submit_error = none;
}
change_login s password_field value = record {
  values = record s.values { password = value };
  errors = record s.errors { password = none };
  submit_error = none;
}

pub data RegisterField : Type 0 where
  name_field mail_field secret_field confirm_field : RegisterField

-- `handleChange` of the registration.
unfoldable pub change_register : RegisterState → RegisterField → Text → RegisterState
change_register s name_field value = record {
  values = record s.values { name = value };
  errors = record s.errors { name = none };
  submit_error = none;
}
change_register s mail_field value = record {
  values = record s.values { email = value };
  errors = record s.errors { email = none };
  submit_error = none;
}
change_register s secret_field value = record {
  values = record s.values { password = value };
  errors = record s.errors { password = none };
  submit_error = none;
}
change_register s confirm_field value = record {
  values = record s.values { confirm_password = value };
  errors = record s.errors { confirm_password = none };
  submit_error = none;
}

module _ (lower : Text → Text) where
  -- `handleSubmit` up to the request, if one is made; `lower` is `toLowerCase`.
  unfoldable pub submit_login : LoginState → LoginState × Option LoginRequest
  unfolding validate_login_form
  submit_login s =
      let next_errors = validate_login_form lower s.values in
      (
        record s { errors = next_errors },
        if has_login_errors next_errors
            then none
            else some
                (record { email = lower (trim s.values.email); password = s.values.password }),
      )

  unfoldable pub submit_register : RegisterState → RegisterState × Option RegisterRequest
  unfolding validate_register_form
  submit_register s =
      let next_errors = validate_register_form lower s.values in
      (
        record s { errors = next_errors },
        if has_register_errors next_errors
            then none
            else some (record {
              name = trim s.values.name;
              email = lower (trim s.values.email);
              password = s.values.password;
            }),
      )

-- What the rest of `handleSubmit` leaves: the form, the session, and the path that it goes to.
pub record Outcome {ℓ} (S : Type ℓ) : Type ℓ where
  pub form : S
  pub session : AuthState × Storage
  pub target : Option Text

-- `location` is the router's state, if there is one.
unfoldable pub finish_login :
    Platform → Option Json → LoginState → AuthState × Storage → Reply → Outcome LoginState
unfolding set_credentials resolve_post_login_redirect get_auth_error_message
finish_login p location s session (accepted r) = record {
  form = s;
  session = set_credentials p r session;
  target = some (resolve_post_login_redirect location);
}
finish_login p location s session (refused failure) = record {
  form = record s {
    submit_error = some (get_auth_error_message failure (text "Nao foi possivel entrar agora."));
  };
  session = session;
  target = none;
}

unfoldable pub taken_email : Text
taken_email = text "Este email ja esta em uso."

unfoldable pub refuse_register : RegisterState → Failure → RegisterState
unfolding has_status_code get_auth_error_message
refuse_register s failure =
    if has_status_code failure 409
    then record s { errors = record s.errors { email = some taken_email } }
    else record s {
      submit_error =
          some (get_auth_error_message failure (text "Nao foi possivel concluir o cadastro."));
    }

unfoldable pub finish_register :
    Platform → RegisterState → AuthState × Storage → Reply → Outcome RegisterState
unfolding set_credentials refuse_register default_auth_redirect
finish_register p s session (accepted r) = record {
  form = s;
  session = set_credentials p r session;
  target = some default_auth_redirect;
}
finish_register p s session (refused failure) = record {
  form = refuse_register s failure;
  session = session;
  target = none;
}
