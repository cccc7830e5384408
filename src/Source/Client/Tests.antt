-- ===== src/Source/Client/Tests.antt =====
-- A client whose API knows one host.
use gitlab_pages_mirror.Common.{Text, codes, true, false, none, some, [], refl}
use gitlab_pages_mirror.Source.Client.{ClientLibrary, Client, get_lookup}
use gitlab_pages_mirror.Source.Client.Answers.{Tells, get_lookup-Tells}

abbrev library : ClientLibrary
library = record {
  Url = Text;
  parse = λ s. some s;
  resolve = λ u p. some p;
  print = λ u q. u;
  request_fits = λ s. true;
  sign = λ key claims. some key;
  decode = λ body. (none, false);
  send = λ q. some (record { status = 204; body = [] });
}

abbrev client : Client library
client = record {
  secret_key = codes "key";
  base_url = codes "https://gitlab.io";
  connection_timeout = 10;
  jwt_token_expiry = 30;
}

get_lookup-Tells_example :
    Tells library 7 client
      (record { status = 204; body = [] })
      (get_lookup library 7 client (codes "a.io"))
get_lookup-Tells_example =
    get_lookup-Tells library 7 client (codes "a.io") (record { status = 204; body = [] })
      (record {
        url = codes "/api/v4/internal/pages";
        resolved = refl;
        fits = refl;
        token = codes "key";
        signed = refl;
        sent = refl;
      })
