-- ===== src/Middleware.antt =====
-- middleware/Auth/IAuthenticator.hpp: what an authenticator is asked, and what it answers.
use rtl.Base.{ℕ, Bool, String, Option, List}

pub record AuthenticationRequest : Type 0 where
  pub authorization_header : Option String
  pub normalized_headers : List (String × String)
  pub query_params : List (String × String)
  pub cookies : List (String × String)
  pub endpoint : String
  pub raw_target : String
  pub query_string : String
  pub remote_address : String
  pub remote_port : ℕ
  pub host : String
  pub origin : String
  pub user_agent : String

pub record AuthenticatedPrincipal : Type 0 where
  pub user_id : String
  pub auth_scheme : String
  pub subject : String
  pub issuer : String
  pub roles : List String
  pub scopes : List String
  pub expires_at : Option ℕ

pub data AuthenticationFailureCode : Type 0 where
  missing_credentials malformed_credentials : AuthenticationFailureCode
  invalid_token expired_token : AuthenticationFailureCode
  invalid_issuer invalid_audience : AuthenticationFailureCode
  forbidden temporarily_unavailable : AuthenticationFailureCode

pub record AuthenticationFailure : Type 0 where
  pub code : AuthenticationFailureCode
  pub message : String
  pub retryable : Bool

pub data AuthenticationResult : Type 0 where
  principal : AuthenticatedPrincipal → AuthenticationResult
  failure : AuthenticationFailure → AuthenticationResult

-- An implementation of the interface.
abbrev pub IAuthenticator : Type 0
IAuthenticator = AuthenticationRequest → AuthenticationResult
