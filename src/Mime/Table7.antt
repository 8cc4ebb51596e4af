-- ===== src/Mime/Table7.antt =====
-- src/mime.rs: the entries of `MIME_TYPE_BY_EXTENSION` from "semd" to "toml".
use anweb.Prelude.{List, [], ◌∷◌, codes, Bytes}

abbrev pub types_7 : List (Bytes × Bytes)
types_7 =
    (codes "semd", codes "application/vnd.semd")
    ∷ (codes "semf", codes "application/vnd.semf")
    ∷ (codes "ser", codes "application/java-serialized-object")
    ∷ (codes "setpay", codes "application/set-payment-initiation")
    ∷ (codes "setreg", codes "application/set-registration-initiation")
    ∷ (codes "settings", codes "application/xml")
    ∷ (codes "sfd-hdstx", codes "application/vnd.hydrostatix.sof-data")
    ∷ (codes "sfs", codes "application/vnd.spotfire.sfs")
    ∷ (codes "sfv", codes "text/x-sfv")
    ∷ (codes "sgi", codes "image/sgi")
    ∷ (codes "sgimb", codes "application/x-sgimb")
    ∷ (codes "sgl", codes "application/vnd.stardivision.writer-global")
    ∷ (codes "sgm", codes "text/sgml")
    ∷ (codes "sgml", codes "text/sgml")
    ∷ (codes "sh", codes "application/x-sh")
    ∷ (codes "shar", codes "application/x-shar")
    ∷ (codes "shex", codes "text/shex")
    ∷ (codes "shf", codes "application/shf+xml")
    ∷ (codes "shtml", codes "text/html")
    ∷ (codes "sid", codes "image/x-mrsid-image")
    ∷ (codes "sig", codes "application/pgp-signature")
    ∷ (codes "sil", codes "audio/silk")
    ∷ (codes "silo", codes "model/mesh")
    ∷ (codes "sis", codes "application/vnd.symbian.install")
    ∷ (codes "sisx", codes "application/vnd.symbian.install")
    ∷ (codes "sit", codes "application/x-stuffit")
    ∷ (codes "sitemap", codes "application/xml")
    ∷ (codes "sitx", codes "application/x-stuffitx")
    ∷ (codes "skd", codes "application/vnd.koan")
    ∷ (codes "skin", codes "application/xml")
    ∷ (codes "skm", codes "application/vnd.koan")
    ∷ (codes "skp", codes "application/x-koan")
    ∷ (codes "skt", codes "application/vnd.koan")
    ∷ (codes "sldm", codes "application/vnd.ms-powerpoint.slide.macroEnabled.12")
    ∷ (codes "sldx", codes "application/vnd.openxmlformats-officedocument.presentationml.slide")
    ∷ (codes "slim", codes "text/slim")
    ∷ (codes "slk", codes "application/vnd.ms-excel")
    ∷ (codes "slm", codes "text/slim")
    ∷ (codes "sln", codes "text/plain")
    ∷ (codes "slt", codes "application/vnd.epson.salt")
    ∷ (codes "slupkg-ms", codes "application/x-ms-license")
    ∷ (codes "sm", codes "application/vnd.stepmania.stepchart")
    ∷ (codes "smd", codes "audio/x-smd")
    ∷ (codes "smf", codes "application/vnd.stardivision.math")
    ∷ (codes "smi", codes "application/octet-stream")
    ∷ (codes "smil", codes "application/smil+xml")
    ∷ (codes "smv", codes "video/x-smv")
    ∷ (codes "smx", codes "audio/x-smd")
    ∷ (codes "smz", codes "audio/x-smd")
    ∷ (codes "smzip", codes "application/vnd.stepmania.package")
    ∷ (codes "snd", codes "audio/basic")
    ∷ (codes "snf", codes "application/x-font-snf")
    ∷ (codes "snippet", codes "application/xml")
    ∷ (codes "snp", codes "application/octet-stream")
    ∷ (codes "so", codes "application/octet-stream")
    ∷ (codes "sol", codes "text/plain")
    ∷ (codes "sor", codes "text/plain")
    ∷ (codes "spc", codes "application/x-pkcs7-certificates")
    ∷ (codes "spf", codes "application/vnd.yamaha.smaf-phrase")
    ∷ (codes "spl", codes "application/futuresplash")
    ∷ (codes "spot", codes "text/vnd.in3d.spot")
    ∷ (codes "spp", codes "application/scvp-vp-response")
    ∷ (codes "spq", codes "application/scvp-vp-request")
    ∷ (codes "spx", codes "audio/ogg")
    ∷ (codes "sql", codes "application/x-sql")
    ∷ (codes "src", codes "application/x-wais-source")
    ∷ (codes "srf", codes "text/plain")
    ∷ (codes "srt", codes "application/x-subrip")
    ∷ (codes "sru", codes "application/sru+xml")
    ∷ (codes "srx", codes "application/sparql-results+xml")
    ∷ (codes "ssdl", codes "application/ssdl+xml")
    ∷ (codes "sse", codes "application/vnd.kodak-descriptor")
    ∷ (codes "ssf", codes "application/vnd.epson.ssf")
    ∷ (codes "ssisdeploymentmanifest", codes "text/xml")
    ∷ (codes "ssm", codes "application/streamingmedia")
    ∷ (codes "ssml", codes "application/ssml+xml")
    ∷ (codes "sst", codes "application/vnd.ms-pki.certstore")
    ∷ (codes "st", codes "application/vnd.sailingtracker.track")
    ∷ (codes "stc", codes "application/vnd.sun.xml.calc.template")
    ∷ (codes "std", codes "application/vnd.sun.xml.draw.template")
    ∷ (codes "step", codes "application/step")
    ∷ (codes "stf", codes "application/vnd.wt.stf")
    ∷ (codes "sti", codes "application/vnd.sun.xml.impress.template")
    ∷ (codes "stk", codes "application/hyperstudio")
    ∷ (codes "stl", codes "application/vnd.ms-pki.stl")
    ∷ (codes "stp", codes "application/step")
    ∷ (codes "str", codes "application/vnd.pg.format")
    ∷ (codes "stw", codes "application/vnd.sun.xml.writer.template")
    ∷ (codes "styl", codes "text/stylus")
    ∷ (codes "stylus", codes "text/stylus")
    ∷ (codes "sub", codes "text/vnd.dvb.subtitle")
    ∷ (codes "sus", codes "application/vnd.sus-calendar")
    ∷ (codes "susp", codes "application/vnd.sus-calendar")
    ∷ (codes "sv4cpio", codes "application/x-sv4cpio")
    ∷ (codes "sv4crc", codes "application/x-sv4crc")
    ∷ (codes "svc", codes "application/xml")
    ∷ (codes "svd", codes "application/vnd.svd")
    ∷ (codes "svg", codes "image/svg+xml")
    ∷ (codes "svgz", codes "image/svg+xml")
    ∷ (codes "swa", codes "application/x-director")
    ∷ (codes "swf", codes "application/x-shockwave-flash")
    ∷ (codes "swi", codes "application/vnd.aristanetworks.swi")
    ∷ (codes "sxc", codes "application/vnd.sun.xml.calc")
    ∷ (codes "sxd", codes "application/vnd.sun.xml.draw")
    ∷ (codes "sxg", codes "application/vnd.sun.xml.writer.global")
    ∷ (codes "sxi", codes "application/vnd.sun.xml.impress")
    ∷ (codes "sxm", codes "application/vnd.sun.xml.math")
    ∷ (codes "sxw", codes "application/vnd.sun.xml.writer")
    ∷ (codes "t", codes "application/x-troff")
    ∷ (codes "t3", codes "application/x-t3vm-image")
    ∷ (codes "taglet", codes "application/vnd.mynfc")
    ∷ (codes "tao", codes "application/vnd.tao.intent-module-archive")
    ∷ (codes "tar", codes "application/x-tar")
    ∷ (codes "tcap", codes "application/vnd.3gpp2.tcap")
    ∷ (codes "tcl", codes "application/x-tcl")
    ∷ (codes "teacher", codes "application/vnd.smart.teacher")
    ∷ (codes "tei", codes "application/tei+xml")
    ∷ (codes "teicorpus", codes "application/tei+xml")
    ∷ (codes "testrunconfig", codes "application/xml")
    ∷ (codes "testsettings", codes "application/xml")
    ∷ (codes "tex", codes "application/x-tex")
    ∷ (codes "texi", codes "application/x-texinfo")
    ∷ (codes "texinfo", codes "application/x-texinfo")
    ∷ (codes "text", codes "text/plain")
    ∷ (codes "tfi", codes "application/thraud+xml")
    ∷ (codes "tfm", codes "application/x-tex-tfm")
    ∷ (codes "tga", codes "image/x-tga")
    ∷ (codes "tgz", codes "application/x-compressed")
    ∷ (codes "thmx", codes "application/vnd.ms-officetheme")
    ∷ (codes "thn", codes "application/octet-stream")
    ∷ (codes "tif", codes "image/tiff")
    ∷ (codes "tiff", codes "image/tiff")
    ∷ (codes "tk", codes "application/x-tcl")
    ∷ (codes "tlh", codes "text/plain")
    ∷ (codes "tli", codes "text/plain")
    ∷ (codes "tmo", codes "application/vnd.tmobile-livetv")
    ∷ (codes "toc", codes "application/octet-stream")
    ∷ (codes "toml", codes "text/x-toml")
    ∷ []
