-- ===== src/Mime/Table3.antt =====
-- src/mime.rs: the entries of `MIME_TYPE_BY_EXTENSION` from "htm" to "loadtest".
use anweb.Prelude.{List, [], ◌∷◌, codes, Bytes}

abbrev pub types_3 : List (Bytes × Bytes)
types_3 =
    (codes "htm", codes "text/html")
    ∷ (codes "html", codes "text/html")
    ∷ (codes "htt", codes "text/webviewhtml")
    ∷ (codes "hvd", codes "application/vnd.yamaha.hv-dic")
    ∷ (codes "hvp", codes "application/vnd.yamaha.hv-voice")
    ∷ (codes "hvs", codes "application/vnd.yamaha.hv-script")
    ∷ (codes "hxa", codes "application/xml")
    ∷ (codes "hxc", codes "application/xml")
    ∷ (codes "hxd", codes "application/octet-stream")
    ∷ (codes "hxe", codes "application/xml")
    ∷ (codes "hxf", codes "application/xml")
    ∷ (codes "hxh", codes "application/octet-stream")
    ∷ (codes "hxi", codes "application/octet-stream")
    ∷ (codes "hxk", codes "application/xml")
    ∷ (codes "hxq", codes "application/octet-stream")
    ∷ (codes "hxr", codes "application/octet-stream")
    ∷ (codes "hxs", codes "application/octet-stream")
    ∷ (codes "hxt", codes "text/html")
    ∷ (codes "hxv", codes "application/xml")
    ∷ (codes "hxw", codes "application/octet-stream")
    ∷ (codes "hxx", codes "text/plain")
    ∷ (codes "i", codes "text/plain")
    ∷ (codes "i2g", codes "application/vnd.intergeo")
    ∷ (codes "icc", codes "application/vnd.iccprofile")
    ∷ (codes "ice", codes "x-conference/x-cooltalk")
    ∷ (codes "icm", codes "application/vnd.iccprofile")
    ∷ (codes "ico", codes "image/x-icon")
    ∷ (codes "ics", codes "application/octet-stream")
    ∷ (codes "idl", codes "text/plain")
    ∷ (codes "ief", codes "image/ief")
    ∷ (codes "ifb", codes "text/calendar")
    ∷ (codes "ifm", codes "application/vnd.shana.informed.formdata")
    ∷ (codes "iges", codes "model/iges")
    ∷ (codes "igl", codes "application/vnd.igloader")
    ∷ (codes "igm", codes "application/vnd.insors.igm")
    ∷ (codes "igs", codes "model/iges")
    ∷ (codes "igx", codes "application/vnd.micrografx.igx")
    ∷ (codes "iif", codes "application/vnd.shana.informed.interchange")
    ∷ (codes "iii", codes "application/x-iphone")
    ∷ (codes "img", codes "application/octet-stream")
    ∷ (codes "imp", codes "application/vnd.accpac.simply.imp")
    ∷ (codes "ims", codes "application/vnd.ms-ims")
    ∷ (codes "in", codes "text/plain")
    ∷ (codes "inc", codes "text/plain")
    ∷ (codes "inf", codes "application/octet-stream")
    ∷ (codes "ini", codes "text/plain")
    ∷ (codes "ink", codes "application/inkml+xml")
    ∷ (codes "inkml", codes "application/inkml+xml")
    ∷ (codes "inl", codes "text/plain")
    ∷ (codes "ins", codes "application/x-internet-signup")
    ∷ (codes "install", codes "application/x-install-instructions")
    ∷ (codes "iota", codes "application/vnd.astraea-software.iota")
    ∷ (codes "ipa", codes "application/x-itunes-ipa")
    ∷ (codes "ipfix", codes "application/ipfix")
    ∷ (codes "ipg", codes "application/x-itunes-ipg")
    ∷ (codes "ipk", codes "application/vnd.shana.informed.package")
    ∷ (codes "ipproj", codes "text/plain")
    ∷ (codes "ipsw", codes "application/x-itunes-ipsw")
    ∷ (codes "iqy", codes "text/x-ms-iqy")
    ∷ (codes "irm", codes "application/vnd.ibm.rights-management")
    ∷ (codes "irp", codes "application/vnd.irepository.package+xml")
    ∷ (codes "iso", codes "application/octet-stream")
    ∷ (codes "isp", codes "application/x-internet-signup")
    ∷ (codes "ite", codes "application/x-itunes-ite")
    ∷ (codes "itlp", codes "application/x-itunes-itlp")
    ∷ (codes "itms", codes "application/x-itunes-itms")
    ∷ (codes "itp", codes "application/vnd.shana.informed.formtemplate")
    ∷ (codes "itpc", codes "application/x-itunes-itpc")
    ∷ (codes "ivf", codes "video/x-ivf")
    ∷ (codes "ivp", codes "application/vnd.immervision-ivp")
    ∷ (codes "ivu", codes "application/vnd.immervision-ivu")
    ∷ (codes "jad", codes "text/vnd.sun.j2me.app-descriptor")
    ∷ (codes "jade", codes "text/jade")
    ∷ (codes "jam", codes "application/vnd.jam")
    ∷ (codes "jar", codes "application/java-archive")
    ∷ (codes "jardiff", codes "application/x-java-archive-diff")
    ∷ (codes "java", codes "application/octet-stream")
    ∷ (codes "jck", codes "application/liquidmotion")
    ∷ (codes "jcz", codes "application/liquidmotion")
    ∷ (codes "jfif", codes "image/pjpeg")
    ∷ (codes "jisp", codes "application/vnd.jisp")
    ∷ (codes "jlt", codes "application/vnd.hp-jlyt")
    ∷ (codes "jng", codes "image/x-jng")
    ∷ (codes "jnlp", codes "application/x-java-jnlp-file")
    ∷ (codes "joda", codes "application/vnd.joost.joda-archive")
    ∷ (codes "jp2", codes "image/jp2")
    ∷ (codes "jpb", codes "application/octet-stream")
    ∷ (codes "jpe", codes "image/jpeg")
    ∷ (codes "jpeg", codes "image/jpeg")
    ∷ (codes "jpf", codes "image/jpx")
    ∷ (codes "jpg", codes "image/jpeg")
    ∷ (codes "jpg2", codes "image/jp2")
    ∷ (codes "jpgm", codes "video/jpm")
    ∷ (codes "jpgv", codes "video/jpeg")
    ∷ (codes "jpm", codes "image/jpm")
    ∷ (codes "jpx", codes "image/jpx")
    ∷ (codes "js", codes "application/javascript")
    ∷ (codes "jsm", codes "application/javascript")
    ∷ (codes "json", codes "application/json")
    ∷ (codes "json5", codes "application/json5")
    ∷ (codes "jsonld", codes "application/ld+json")
    ∷ (codes "jsonml", codes "application/jsonml+json")
    ∷ (codes "jsx", codes "text/jscript")
    ∷ (codes "jsxbin", codes "text/plain")
    ∷ (codes "kar", codes "audio/midi")
    ∷ (codes "karbon", codes "application/vnd.kde.karbon")
    ∷ (codes "kfo", codes "application/vnd.kde.kformula")
    ∷ (codes "kia", codes "application/vnd.kidspiration")
    ∷ (codes "kml", codes "application/vnd.google-earth.kml+xml")
    ∷ (codes "kmz", codes "application/vnd.google-earth.kmz")
    ∷ (codes "kne", codes "application/vnd.kinar")
    ∷ (codes "knp", codes "application/vnd.kinar")
    ∷ (codes "kon", codes "application/vnd.kde.kontour")
    ∷ (codes "kpr", codes "application/vnd.kde.kpresenter")
    ∷ (codes "kpt", codes "application/vnd.kde.kpresenter")
    ∷ (codes "kpxx", codes "application/vnd.ds-keypoint")
    ∷ (codes "ksp", codes "application/vnd.kde.kspread")
    ∷ (codes "ktr", codes "application/vnd.kahootz")
    ∷ (codes "ktx", codes "image/ktx")
    ∷ (codes "ktz", codes "application/vnd.kahootz")
    ∷ (codes "kwd", codes "application/vnd.kde.kword")
    ∷ (codes "kwt", codes "application/vnd.kde.kword")
    ∷ (codes "lasxml", codes "application/vnd.las.las+xml")
    ∷ (codes "latex", codes "application/x-latex")
    ∷ (codes "lbd", codes "application/vnd.llamagraphics.life-balance.desktop")
    ∷ (codes "lbe", codes "application/vnd.llamagraphics.life-balance.exchange+xml")
    ∷ (codes "les", codes "application/vnd.hhe.lesson-player")
    ∷ (codes "less", codes "text/less")
    ∷ (codes "lha", codes "application/x-lzh-compressed")
    ∷ (codes "library-ms", codes "application/windows-library+xml")
    ∷ (codes "link66", codes "application/vnd.route66.link66+xml")
    ∷ (codes "list", codes "text/plain")
    ∷ (codes "list3820", codes "application/vnd.ibm.modcap")
    ∷ (codes "listafp", codes "application/vnd.ibm.modcap")
    ∷ (codes "lit", codes "application/x-ms-reader")
    ∷ (codes "litcoffee", codes "text/coffeescript")
    ∷ (codes "lnk", codes "application/x-ms-shortcut")
    ∷ (codes "loadtest", codes "application/xml")
    ∷ []
