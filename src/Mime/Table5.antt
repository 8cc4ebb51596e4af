-- ===== src/Mime/Table5.antt =====
-- src/mime.rs: the entries of `MIME_TYPE_BY_EXTENSION` from "mts" to "pml".
use anweb.Prelude.{List, [], ◌∷◌, codes, Bytes}

abbrev pub types_5 : List (Bytes × Bytes)
types_5 =
    (codes "mts", codes "video/vnd.dlna.mpeg-tts")
    ∷ (codes "mtx", codes "application/xml")
    ∷ (codes "mus", codes "application/vnd.musician")
    ∷ (codes "musicxml", codes "application/vnd.recordare.musicxml+xml")
    ∷ (codes "mvb", codes "application/x-msmediaview")
    ∷ (codes "mvc", codes "application/x-miva-compiled")
    ∷ (codes "mwf", codes "application/vnd.mfer")
    ∷ (codes "mxf", codes "application/mxf")
    ∷ (codes "mxl", codes "application/vnd.recordare.musicxml")
    ∷ (codes "mxml", codes "application/xv+xml")
    ∷ (codes "mxp", codes "application/x-mmxp")
    ∷ (codes "mxs", codes "application/vnd.triscape.mxs")
    ∷ (codes "mxu", codes "video/vnd.mpegurl")
    ∷ (codes "n-gage", codes "application/vnd.nokia.n-gage.symbian.install")
    ∷ (codes "n3", codes "text/n3")
    ∷ (codes "nb", codes "application/mathematica")
    ∷ (codes "nbp", codes "application/vnd.wolfram.player")
    ∷ (codes "nc", codes "application/x-netcdf")
    ∷ (codes "ncx", codes "application/x-dtbncx+xml")
    ∷ (codes "nfo", codes "text/x-nfo")
    ∷ (codes "ngdat", codes "application/vnd.nokia.n-gage.data")
    ∷ (codes "nitf", codes "application/vnd.nitf")
    ∷ (codes "nlu", codes "application/vnd.neurolanguage.nlu")
    ∷ (codes "nml", codes "application/vnd.enliven")
    ∷ (codes "nnd", codes "application/vnd.noblenet-directory")
    ∷ (codes "nns", codes "application/vnd.noblenet-sealer")
    ∷ (codes "nnw", codes "application/vnd.noblenet-web")
    ∷ (codes "npx", codes "image/vnd.net-fpx")
    ∷ (codes "nsc", codes "video/x-ms-asf")
    ∷ (codes "nsf", codes "application/vnd.lotus-notes")
    ∷ (codes "ntf", codes "application/vnd.nitf")
    ∷ (codes "nws", codes "message/rfc822")
    ∷ (codes "nzb", codes "application/x-nzb")
    ∷ (codes "oa2", codes "application/vnd.fujitsu.oasys2")
    ∷ (codes "oa3", codes "application/vnd.fujitsu.oasys3")
    ∷ (codes "oas", codes "application/vnd.fujitsu.oasys")
    ∷ (codes "obd", codes "application/x-msbinder")
    ∷ (codes "obj", codes "application/x-tgif")
    ∷ (codes "ocx", codes "application/octet-stream")
    ∷ (codes "oda", codes "application/oda")
    ∷ (codes "odb", codes "application/vnd.oasis.opendocument.database")
    ∷ (codes "odc", codes "application/vnd.oasis.opendocument.chart")
    ∷ (codes "odf", codes "application/vnd.oasis.opendocument.formula")
    ∷ (codes "odft", codes "application/vnd.oasis.opendocument.formula-template")
    ∷ (codes "odg", codes "application/vnd.oasis.opendocument.graphics")
    ∷ (codes "odh", codes "text/plain")
    ∷ (codes "odi", codes "application/vnd.oasis.opendocument.image")
    ∷ (codes "odl", codes "text/plain")
    ∷ (codes "odm", codes "application/vnd.oasis.opendocument.text-master")
    ∷ (codes "odp", codes "application/vnd.oasis.opendocument.presentation")
    ∷ (codes "ods", codes "application/vnd.oasis.opendocument.spreadsheet")
    ∷ (codes "odt", codes "application/vnd.oasis.opendocument.text")
    ∷ (codes "oga", codes "audio/ogg")
    ∷ (codes "ogg", codes "audio/ogg")
    ∷ (codes "ogv", codes "video/ogg")
    ∷ (codes "ogx", codes "application/ogg")
    ∷ (codes "omdoc", codes "application/omdoc+xml")
    ∷ (codes "one", codes "application/onenote")
    ∷ (codes "onea", codes "application/onenote")
    ∷ (codes "onepkg", codes "application/onenote")
    ∷ (codes "onetmp", codes "application/onenote")
    ∷ (codes "onetoc", codes "application/onenote")
    ∷ (codes "onetoc2", codes "application/onenote")
    ∷ (codes "opf", codes "application/oebps-package+xml")
    ∷ (codes "opml", codes "text/x-opml")
    ∷ (codes "oprc", codes "application/vnd.palm")
    ∷ (codes "opus", codes "audio/ogg")
    ∷ (codes "orderedtest", codes "application/xml")
    ∷ (codes "org", codes "application/vnd.lotus-organizer")
    ∷ (codes "osdx", codes "application/opensearchdescription+xml")
    ∷ (codes "osf", codes "application/vnd.yamaha.openscoreformat")
    ∷ (codes "osfpvg", codes "application/vnd.yamaha.openscoreformat.osfpvg+xml")
    ∷ (codes "otc", codes "application/vnd.oasis.opendocument.chart-template")
    ∷ (codes "otf", codes "application/font-sfnt")
    ∷ (codes "otg", codes "application/vnd.oasis.opendocument.graphics-template")
    ∷ (codes "oth", codes "application/vnd.oasis.opendocument.text-web")
    ∷ (codes "oti", codes "application/vnd.oasis.opendocument.image-template")
    ∷ (codes "otp", codes "application/vnd.oasis.opendocument.presentation-template")
    ∷ (codes "ots", codes "application/vnd.oasis.opendocument.spreadsheet-template")
    ∷ (codes "ott", codes "application/vnd.oasis.opendocument.text-template")
    ∷ (codes "ova", codes "application/x-virtualbox-ova")
    ∷ (codes "ovf", codes "application/x-virtualbox-ovf")
    ∷ (codes "oxps", codes "application/oxps")
    ∷ (codes "oxt", codes "application/vnd.openofficeorg.extension")
    ∷ (codes "p", codes "text/x-pascal")
    ∷ (codes "p10", codes "application/pkcs10")
    ∷ (codes "p12", codes "application/x-pkcs12")
    ∷ (codes "p7b", codes "application/x-pkcs7-certificates")
    ∷ (codes "p7c", codes "application/pkcs7-mime")
    ∷ (codes "p7m", codes "application/pkcs7-mime")
    ∷ (codes "p7r", codes "application/x-pkcs7-certreqresp")
    ∷ (codes "p7s", codes "application/pkcs7-signature")
    ∷ (codes "p8", codes "application/pkcs8")
    ∷ (codes "pac", codes "application/x-ns-proxy-autoconfig")
    ∷ (codes "pas", codes "text/x-pascal")
    ∷ (codes "paw", codes "application/vnd.pawaafile")
    ∷ (codes "pbd", codes "application/vnd.powerbuilder6")
    ∷ (codes "pbm", codes "image/x-portable-bitmap")
    ∷ (codes "pcap", codes "application/vnd.tcpdump.pcap")
    ∷ (codes "pcast", codes "application/x-podcast")
    ∷ (codes "pcf", codes "application/x-font-pcf")
    ∷ (codes "pcl", codes "application/vnd.hp-pcl")
    ∷ (codes "pclxl", codes "application/vnd.hp-pclxl")
    ∷ (codes "pct", codes "image/pict")
    ∷ (codes "pcurl", codes "application/vnd.curl.pcurl")
    ∷ (codes "pcx", codes "application/octet-stream")
    ∷ (codes "pcz", codes "application/octet-stream")
    ∷ (codes "pdb", codes "application/vnd.palm")
    ∷ (codes "pde", codes "text/x-processing")
    ∷ (codes "pdf", codes "application/pdf")
    ∷ (codes "pem", codes "application/x-x509-ca-cert")
    ∷ (codes "pfa", codes "application/x-font-type1")
    ∷ (codes "pfb", codes "application/octet-stream")
    ∷ (codes "pfm", codes "application/octet-stream")
    ∷ (codes "pfr", codes "application/font-tdpfr")
    ∷ (codes "pfx", codes "application/x-pkcs12")
    ∷ (codes "pgm", codes "image/x-portable-graymap")
    ∷ (codes "pgn", codes "application/x-chess-pgn")
    ∷ (codes "pgp", codes "application/pgp-encrypted")
    ∷ (codes "php", codes "application/x-httpd-php")
    ∷ (codes "pic", codes "image/pict")
    ∷ (codes "pict", codes "image/pict")
    ∷ (codes "pkg", codes "application/octet-stream")
    ∷ (codes "pkgdef", codes "text/plain")
    ∷ (codes "pkgundef", codes "text/plain")
    ∷ (codes "pki", codes "application/pkixcmp")
    ∷ (codes "pkipath", codes "application/pkix-pkipath")
    ∷ (codes "pko", codes "application/vnd.ms-pki.pko")
    ∷ (codes "pkpass", codes "application/vnd.apple.pkpass")
    ∷ (codes "pl", codes "application/x-perl")
    ∷ (codes "plb", codes "application/vnd.3gpp.pic-bw-large")
    ∷ (codes "plc", codes "application/vnd.mobius.plc")
    ∷ (codes "plf", codes "application/vnd.pocketlearn")
    ∷ (codes "pls", codes "audio/scpls")
    ∷ (codes "pm", codes "application/x-perl")
    ∷ (codes "pma", codes "application/x-perfmon")
    ∷ (codes "pmc", codes "application/x-perfmon")
    ∷ (codes "pml", codes "application/x-perfmon")
    ∷ []
