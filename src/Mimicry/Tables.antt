-- ===== src/Mimicry/Tables.antt =====
-- The tables of core/mimicry/mimicry.go.
use mazzy_vpn.Base.{[], ◌∷◌, Text, codes}
use mazzy_vpn.Base.Dict.{Dict}

unfoldable pub country_tz : Dict Text
country_tz =
    (codes "AT", codes "Europe/Vienna")
    ∷ (codes "BE", codes "Europe/Brussels")
    ∷ (codes "BG", codes "Europe/Sofia")
    ∷ (codes "CH", codes "Europe/Zurich")
    ∷ (codes "CZ", codes "Europe/Prague")
    ∷ (codes "DE", codes "Europe/Berlin")
    ∷ (codes "DK", codes "Europe/Copenhagen")
    ∷ (codes "EE", codes "Europe/Tallinn")
    ∷ (codes "ES", codes "Europe/Madrid")
    ∷ (codes "FI", codes "Europe/Helsinki")
    ∷ (codes "FR", codes "Europe/Paris")
    ∷ (codes "GB", codes "Europe/London")
    ∷ (codes "GR", codes "Europe/Athens")
    ∷ (codes "HR", codes "Europe/Zagreb")
    ∷ (codes "HU", codes "Europe/Budapest")
    ∷ (codes "IE", codes "Europe/Dublin")
    ∷ (codes "IS", codes "Atlantic/Reykjavik")
    ∷ (codes "IT", codes "Europe/Rome")
    ∷ (codes "LT", codes "Europe/Vilnius")
    ∷ (codes "LU", codes "Europe/Luxembourg")
    ∷ (codes "LV", codes "Europe/Riga")
    ∷ (codes "MD", codes "Europe/Chisinau")
    ∷ (codes "NL", codes "Europe/Amsterdam")
    ∷ (codes "NO", codes "Europe/Oslo")
    ∷ (codes "PL", codes "Europe/Warsaw")
    ∷ (codes "PT", codes "Europe/Lisbon")
    ∷ (codes "RO", codes "Europe/Bucharest")
    ∷ (codes "RS", codes "Europe/Belgrade")
    ∷ (codes "SE", codes "Europe/Stockholm")
    ∷ (codes "SI", codes "Europe/Ljubljana")
    ∷ (codes "SK", codes "Europe/Bratislava")
    ∷ (codes "TR", codes "Europe/Istanbul")
    ∷ (codes "UA", codes "Europe/Kyiv")
    ∷ (codes "RU", codes "Europe/Moscow")
    ∷ (codes "US", codes "America/New_York")
    ∷ (codes "CA", codes "America/Toronto")
    ∷ (codes "BR", codes "America/Sao_Paulo")
    ∷ (codes "MX", codes "America/Mexico_City")
    ∷ (codes "CL", codes "America/Santiago")
    ∷ (codes "AR", codes "America/Argentina/Buenos_Aires")
    ∷ (codes "JP", codes "Asia/Tokyo")
    ∷ (codes "KR", codes "Asia/Seoul")
    ∷ (codes "SG", codes "Asia/Singapore")
    ∷ (codes "HK", codes "Asia/Hong_Kong")
    ∷ (codes "TW", codes "Asia/Taipei")
    ∷ (codes "IN", codes "Asia/Kolkata")
    ∷ (codes "AU", codes "Australia/Sydney")
    ∷ (codes "IL", codes "Asia/Jerusalem")
    ∷ (codes "KZ", codes "Asia/Almaty")
    ∷ (codes "AE", codes "Asia/Dubai")
    ∷ []

unfoldable pub country_locale : Dict Text
country_locale =
    (codes "NL", codes "nl_NL.UTF-8")
    ∷ (codes "DE", codes "de_DE.UTF-8")
    ∷ (codes "FR", codes "fr_FR.UTF-8")
    ∷ (codes "GB", codes "en_GB.UTF-8")
    ∷ (codes "US", codes "en_US.UTF-8")
    ∷ (codes "ES", codes "es_ES.UTF-8")
    ∷ (codes "IT", codes "it_IT.UTF-8")
    ∷ (codes "SE", codes "sv_SE.UTF-8")
    ∷ (codes "NO", codes "nb_NO.UTF-8")
    ∷ (codes "FI", codes "fi_FI.UTF-8")
    ∷ (codes "DK", codes "da_DK.UTF-8")
    ∷ (codes "PL", codes "pl_PL.UTF-8")
    ∷ (codes "AT", codes "de_AT.UTF-8")
    ∷ (codes "BE", codes "nl_BE.UTF-8")
    ∷ (codes "CH", codes "de_CH.UTF-8")
    ∷ (codes "JP", codes "ja_JP.UTF-8")
    ∷ (codes "KR", codes "ko_KR.UTF-8")
    ∷ (codes "RU", codes "ru_RU.UTF-8")
    ∷ []
