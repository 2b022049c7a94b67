-- ===== src/Client/Ui.antt =====
-- `CliInterface` of neutun/src/cli_ui.rs: what is shown once a tunnel is open. Colours, the spinner
-- and the layout of the table are not modelled.
pub mod Notice
use neutun.Base.{
  ℕ, Text, ◌==◌, if◌then◌else◌, Bool, true, false, not, Option, none, some, String, codes, ◌++◌,
}
use neutun.Str.Numbers.{show}
use neutun.Protocol.Hello.{SecretKey}
use neutun.Client.Config.{Config}
use neutun.Client.Options.{activation_url, forward_url}

abbrev pub upgrade_notice : Text
upgrade_notice =
    codes
      "To use custom sub-domains feature, please upgrade your billing plan at https://dashboard.neutun.dev."

abbrev pub key_notice : Text
key_notice =
    codes
      "To access the sub-domain feature, get your authentication key at https://dashboard.neutun.dev."

abbrev notice_by_key : Option SecretKey → Text
notice_by_key (some _) = upgrade_notice
notice_by_key none = key_notice

notice_by_sub_domain : Option Text → Option SecretKey → Text → Option Text
notice_by_sub_domain none key sub_domain = none
notice_by_sub_domain (some asked) key sub_domain =
    if asked == sub_domain then none else some (notice_by_key key)

unfoldable pub get_sub_domain_notice : Config → Text → Option Text
unfolding notice_by_sub_domain
get_sub_domain_notice config sub_domain =
    notice_by_sub_domain config.sub_domain config.secret_key sub_domain

pub record Screen : Type 0 where
  pub public_url : Text
  pub inspect : Text
  pub forward : Text
  pub taken : Text
  pub notice : Option Text

-- After the first connection only.
unfoldable pub did_connect : Config → ℕ → Text → Text → Text → Option Screen
did_connect config introspect_port sub_domain full_hostname taken_domains =
    if not config.first_run
    then none
    else some (record {
      public_url = activation_url config full_hostname;
      inspect = codes "http://localhost:" ++ show introspect_port;
      forward = forward_url config;
      taken = taken_domains;
      notice = get_sub_domain_notice config sub_domain;
    })
