-- ===== src/Mime/Table2.antt =====
-- src/mime.rs: the entries of `MIME_TYPE_BY_EXTENSION` from "ei6" to "htke".
use anweb.Prelude.{List, [], ◌∷◌, codes, Bytes}

abbrev pub types_2 : List (Bytes × Bytes)
types_2 =
    (codes "ei6", codes "application/vnd.pg.osasli")
    ∷ (codes "elc", codes "application/octet-stream")
    ∷ (codes "emf", codes "application/x-msmetafile")
    ∷ (codes "eml", codes "message/rfc822")
    ∷ (codes "emma", codes "application/emma+xml")
    ∷ (codes "emz", codes "application/octet-stream")
    ∷ (codes "eol", codes "audio/vnd.digital-winds")
    ∷ (codes "eot", codes "application/vnd.ms-fontobject")
    ∷ (codes "eps", codes "application/postscript")
    ∷ (codes "epub", codes "application/epub+zip")
    ∷ (codes "es", codes "application/ecmascript")
    ∷ (codes "es3", codes "application/vnd.eszigno3+xml")
    ∷ (codes "esa", codes "application/vnd.osgi.subsystem")
    ∷ (codes "esf", codes "application/vnd.epson.esf")
    ∷ (codes "et3", codes "application/vnd.eszigno3+xml")
    ∷ (codes "etl", codes "application/etl")
    ∷ (codes "etx", codes "text/x-setext")
    ∷ (codes "eva", codes "application/x-eva")
    ∷ (codes "evy", codes "application/envoy")
    ∷ (codes "exe", codes "application/octet-stream")
    ∷ (codes "exe.config", codes "text/xml")
    ∷ (codes "exi", codes "application/exi")
    ∷ (codes "ext", codes "application/vnd.novadigm.ext")
    ∷ (codes "ez", codes "application/andrew-inset")
    ∷ (codes "ez2", codes "application/vnd.ezpix-album")
    ∷ (codes "ez3", codes "application/vnd.ezpix-package")
    ∷ (codes "f", codes "text/x-fortran")
    ∷ (codes "f4v", codes "video/x-f4v")
    ∷ (codes "f77", codes "text/x-fortran")
    ∷ (codes "f90", codes "text/x-fortran")
    ∷ (codes "fbs", codes "image/vnd.fastbidsheet")
    ∷ (codes "fcdt", codes "application/vnd.adobe.formscentral.fcdt")
    ∷ (codes "fcs", codes "application/vnd.isac.fcs")
    ∷ (codes "fdf", codes "application/vnd.fdf")
    ∷ (codes "fe_launch", codes "application/vnd.denovo.fcselayout-link")
    ∷ (codes "fg5", codes "application/vnd.fujitsu.oasysgp")
    ∷ (codes "fgd", codes "application/x-director")
    ∷ (codes "fh", codes "image/x-freehand")
    ∷ (codes "fh4", codes "image/x-freehand")
    ∷ (codes "fh5", codes "image/x-freehand")
    ∷ (codes "fh7", codes "image/x-freehand")
    ∷ (codes "fhc", codes "image/x-freehand")
    ∷ (codes "fif", codes "application/fractals")
    ∷ (codes "fig", codes "application/x-xfig")
    ∷ (codes "filters", codes "application/xml")
    ∷ (codes "fla", codes "application/octet-stream")
    ∷ (codes "flac", codes "audio/flac")
    ∷ (codes "fli", codes "video/x-fli")
    ∷ (codes "flo", codes "application/vnd.micrografx.flo")
    ∷ (codes "flr", codes "x-world/x-vrml")
    ∷ (codes "flv", codes "video/x-flv")
    ∷ (codes "flw", codes "application/vnd.kde.kivio")
    ∷ (codes "flx", codes "text/vnd.fmi.flexstor")
    ∷ (codes "fly", codes "text/vnd.fly")
    ∷ (codes "fm", codes "application/vnd.framemaker")
    ∷ (codes "fnc", codes "application/vnd.frogans.fnc")
    ∷ (codes "for", codes "text/x-fortran")
    ∷ (codes "fpx", codes "image/vnd.fpx")
    ∷ (codes "frame", codes "application/vnd.framemaker")
    ∷ (codes "fsc", codes "application/vnd.fsc.weblaunch")
    ∷ (codes "fsscript", codes "application/fsharp-script")
    ∷ (codes "fst", codes "image/vnd.fst")
    ∷ (codes "fsx", codes "application/fsharp-script")
    ∷ (codes "ftc", codes "application/vnd.fluxtime.clip")
    ∷ (codes "fti", codes "application/vnd.anser-web-funds-transfer-initiation")
    ∷ (codes "fvt", codes "video/vnd.fvt")
    ∷ (codes "fxp", codes "application/vnd.adobe.fxp")
    ∷ (codes "fxpl", codes "application/vnd.adobe.fxp")
    ∷ (codes "fzs", codes "application/vnd.fuzzysheet")
    ∷ (codes "g2w", codes "application/vnd.geoplan")
    ∷ (codes "g3", codes "image/g3fax")
    ∷ (codes "g3w", codes "application/vnd.geospace")
    ∷ (codes "gac", codes "application/vnd.groove-account")
    ∷ (codes "gam", codes "application/x-tads")
    ∷ (codes "gbr", codes "application/rpki-ghostbusters")
    ∷ (codes "gca", codes "application/x-gca-compressed")
    ∷ (codes "gdl", codes "model/vnd.gdl")
    ∷ (codes "gdoc", codes "application/vnd.google-apps.document")
    ∷ (codes "generictest", codes "application/xml")
    ∷ (codes "geo", codes "application/vnd.dynageo")
    ∷ (codes "geojson", codes "application/geo+json")
    ∷ (codes "gex", codes "application/vnd.geometry-explorer")
    ∷ (codes "ggb", codes "application/vnd.geogebra.file")
    ∷ (codes "ggt", codes "application/vnd.geogebra.tool")
    ∷ (codes "ghf", codes "application/vnd.groove-help")
    ∷ (codes "gif", codes "image/gif")
    ∷ (codes "gim", codes "application/vnd.groove-identity-message")
    ∷ (codes "glb", codes "model/gltf-binary")
    ∷ (codes "gltf", codes "model/gltf+json")
    ∷ (codes "gml", codes "application/gml+xml")
    ∷ (codes "gmx", codes "application/vnd.gmx")
    ∷ (codes "gnumeric", codes "application/x-gnumeric")
    ∷ (codes "gph", codes "application/vnd.flographit")
    ∷ (codes "gpx", codes "application/gpx+xml")
    ∷ (codes "gqf", codes "application/vnd.grafeq")
    ∷ (codes "gqs", codes "application/vnd.grafeq")
    ∷ (codes "gram", codes "application/srgs")
    ∷ (codes "gramps", codes "application/x-gramps-xml")
    ∷ (codes "gre", codes "application/vnd.geometry-explorer")
    ∷ (codes "group", codes "text/x-ms-group")
    ∷ (codes "grv", codes "application/vnd.groove-injector")
    ∷ (codes "grxml", codes "application/srgs+xml")
    ∷ (codes "gsf", codes "application/x-font-ghostscript")
    ∷ (codes "gsheet", codes "application/vnd.google-apps.spreadsheet")
    ∷ (codes "gslides", codes "application/vnd.google-apps.presentation")
    ∷ (codes "gsm", codes "audio/x-gsm")
    ∷ (codes "gtar", codes "application/x-gtar")
    ∷ (codes "gtm", codes "application/vnd.groove-tool-message")
    ∷ (codes "gtw", codes "model/vnd.gtw")
    ∷ (codes "gv", codes "text/vnd.graphviz")
    ∷ (codes "gxf", codes "application/gxf")
    ∷ (codes "gxt", codes "application/vnd.geonext")
    ∷ (codes "gz", codes "application/x-gzip")
    ∷ (codes "h", codes "text/plain")
    ∷ (codes "h261", codes "video/h261")
    ∷ (codes "h263", codes "video/h263")
    ∷ (codes "h264", codes "video/h264")
    ∷ (codes "hal", codes "application/vnd.hal+xml")
    ∷ (codes "hbci", codes "application/vnd.hbci")
    ∷ (codes "hbs", codes "text/x-handlebars-template")
    ∷ (codes "hdd", codes "application/x-virtualbox-hdd")
    ∷ (codes "hdf", codes "application/x-hdf")
    ∷ (codes "hdml", codes "text/x-hdml")
    ∷ (codes "hdr", codes "image/vnd.radiance")
    ∷ (codes "hh", codes "text/plain")
    ∷ (codes "hhc", codes "application/x-oleobject")
    ∷ (codes "hhk", codes "application/octet-stream")
    ∷ (codes "hhp", codes "application/octet-stream")
    ∷ (codes "hjson", codes "application/hjson")
    ∷ (codes "hlp", codes "application/winhlp")
    ∷ (codes "hpgl", codes "application/vnd.hp-hpgl")
    ∷ (codes "hpid", codes "application/vnd.hp-hpid")
    ∷ (codes "hpp", codes "text/plain")
    ∷ (codes "hps", codes "application/vnd.hp-hps")
    ∷ (codes "hqx", codes "application/mac-binhex40")
    ∷ (codes "hta", codes "application/hta")
    ∷ (codes "htc", codes "text/x-component")
    ∷ (codes "htke", codes "application/vnd.kenameaapp")
    ∷ []
