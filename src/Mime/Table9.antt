-- ===== src/Mime/Table9.antt =====
-- src/mime.rs: the entries of `MIME_TYPE_BY_EXTENSION` from "webmanifest" to "zmm".
use anweb.Prelude.{List, [], ◌∷◌, codes, Bytes}

abbrev pub types_9 : List (Bytes × Bytes)
types_9 =
    (codes "webmanifest", codes "application/manifest+json")
    ∷ (codes "webp", codes "image/webp")
    ∷ (codes "webtest", codes "application/xml")
    ∷ (codes "wg", codes "application/vnd.pmi.widget")
    ∷ (codes "wgt", codes "application/widget")
    ∷ (codes "wiq", codes "application/xml")
    ∷ (codes "wiz", codes "application/msword")
    ∷ (codes "wks", codes "application/vnd.ms-works")
    ∷ (codes "wlmp", codes "application/wlmoviemaker")
    ∷ (codes "wlpginstall", codes "application/x-wlpg-detect")
    ∷ (codes "wlpginstall3", codes "application/x-wlpg3-detect")
    ∷ (codes "wm", codes "video/x-ms-wm")
    ∷ (codes "wma", codes "audio/x-ms-wma")
    ∷ (codes "wmd", codes "application/x-ms-wmd")
    ∷ (codes "wmf", codes "application/x-msmetafile")
    ∷ (codes "wml", codes "text/vnd.wap.wml")
    ∷ (codes "wmlc", codes "application/vnd.wap.wmlc")
    ∷ (codes "wmls", codes "text/vnd.wap.wmlscript")
    ∷ (codes "wmlsc", codes "application/vnd.wap.wmlscriptc")
    ∷ (codes "wmp", codes "video/x-ms-wmp")
    ∷ (codes "wmv", codes "video/x-ms-wmv")
    ∷ (codes "wmx", codes "video/x-ms-wmx")
    ∷ (codes "wmz", codes "application/x-ms-wmz")
    ∷ (codes "woff", codes "application/font-woff")
    ∷ (codes "woff2", codes "font/woff2")
    ∷ (codes "wpd", codes "application/vnd.wordperfect")
    ∷ (codes "wpl", codes "application/vnd.ms-wpl")
    ∷ (codes "wps", codes "application/vnd.ms-works")
    ∷ (codes "wqd", codes "application/vnd.wqd")
    ∷ (codes "wri", codes "application/x-mswrite")
    ∷ (codes "wrl", codes "x-world/x-vrml")
    ∷ (codes "wrz", codes "x-world/x-vrml")
    ∷ (codes "wsc", codes "text/scriptlet")
    ∷ (codes "wsdl", codes "text/xml")
    ∷ (codes "wspolicy", codes "application/wspolicy+xml")
    ∷ (codes "wtb", codes "application/vnd.webturbo")
    ∷ (codes "wvx", codes "video/x-ms-wvx")
    ∷ (codes "x", codes "application/directx")
    ∷ (codes "x32", codes "application/x-authorware-bin")
    ∷ (codes "x3d", codes "model/x3d+xml")
    ∷ (codes "x3db", codes "model/x3d+binary")
    ∷ (codes "x3dbz", codes "model/x3d+binary")
    ∷ (codes "x3dv", codes "model/x3d+vrml")
    ∷ (codes "x3dvz", codes "model/x3d+vrml")
    ∷ (codes "x3dz", codes "model/x3d+xml")
    ∷ (codes "xaf", codes "x-world/x-vrml")
    ∷ (codes "xaml", codes "application/xaml+xml")
    ∷ (codes "xap", codes "application/x-silverlight-app")
    ∷ (codes "xar", codes "application/vnd.xara")
    ∷ (codes "xbap", codes "application/x-ms-xbap")
    ∷ (codes "xbd", codes "application/vnd.fujixerox.docuworks.binder")
    ∷ (codes "xbm", codes "image/x-xbitmap")
    ∷ (codes "xdf", codes "application/xcap-diff+xml")
    ∷ (codes "xdm", codes "application/vnd.syncml.dm+xml")
    ∷ (codes "xdp", codes "application/vnd.adobe.xdp+xml")
    ∷ (codes "xdr", codes "text/plain")
    ∷ (codes "xdssc", codes "application/dssc+xml")
    ∷ (codes "xdw", codes "application/vnd.fujixerox.docuworks")
    ∷ (codes "xenc", codes "application/xenc+xml")
    ∷ (codes "xer", codes "application/patch-ops-error+xml")
    ∷ (codes "xfdf", codes "application/vnd.adobe.xfdf")
    ∷ (codes "xfdl", codes "application/vnd.xfdl")
    ∷ (codes "xht", codes "application/xhtml+xml")
    ∷ (codes "xhtml", codes "application/xhtml+xml")
    ∷ (codes "xhvml", codes "application/xv+xml")
    ∷ (codes "xif", codes "image/vnd.xiff")
    ∷ (codes "xla", codes "application/vnd.ms-excel")
    ∷ (codes "xlam", codes "application/vnd.ms-excel.addin.macroEnabled.12")
    ∷ (codes "xlc", codes "application/vnd.ms-excel")
    ∷ (codes "xld", codes "application/vnd.ms-excel")
    ∷ (codes "xlf", codes "application/x-xliff+xml")
    ∷ (codes "xlk", codes "application/vnd.ms-excel")
    ∷ (codes "xll", codes "application/vnd.ms-excel")
    ∷ (codes "xlm", codes "application/vnd.ms-excel")
    ∷ (codes "xls", codes "application/vnd.ms-excel")
    ∷ (codes "xlsb", codes "application/vnd.ms-excel.sheet.binary.macroEnabled.12")
    ∷ (codes "xlsm", codes "application/vnd.ms-excel.sheet.macroEnabled.12")
    ∷ (codes "xlsx", codes "application/vnd.openxmlformats-officedocument.spreadsheetml.sheet")
    ∷ (codes "xlt", codes "application/vnd.ms-excel")
    ∷ (codes "xltm", codes "application/vnd.ms-excel.template.macroEnabled.12")
    ∷ (codes "xltx", codes "application/vnd.openxmlformats-officedocument.spreadsheetml.template")
    ∷ (codes "xlw", codes "application/vnd.ms-excel")
    ∷ (codes "xm", codes "audio/xm")
    ∷ (codes "xml", codes "text/xml")
    ∷ (codes "xmp", codes "application/octet-stream")
    ∷ (codes "xmta", codes "application/xml")
    ∷ (codes "xo", codes "application/vnd.olpc-sugar")
    ∷ (codes "xof", codes "x-world/x-vrml")
    ∷ (codes "xoml", codes "text/plain")
    ∷ (codes "xop", codes "application/xop+xml")
    ∷ (codes "xpi", codes "application/x-xpinstall")
    ∷ (codes "xpl", codes "application/xproc+xml")
    ∷ (codes "xpm", codes "image/x-xpixmap")
    ∷ (codes "xpr", codes "application/vnd.is-xpr")
    ∷ (codes "xps", codes "application/vnd.ms-xpsdocument")
    ∷ (codes "xpw", codes "application/vnd.intercon.formnet")
    ∷ (codes "xpx", codes "application/vnd.intercon.formnet")
    ∷ (codes "xrm-ms", codes "text/xml")
    ∷ (codes "xsc", codes "application/xml")
    ∷ (codes "xsd", codes "text/xml")
    ∷ (codes "xsf", codes "text/xml")
    ∷ (codes "xsl", codes "text/xml")
    ∷ (codes "xslt", codes "text/xml")
    ∷ (codes "xsm", codes "application/vnd.syncml+xml")
    ∷ (codes "xsn", codes "application/octet-stream")
    ∷ (codes "xspf", codes "application/xspf+xml")
    ∷ (codes "xss", codes "application/xml")
    ∷ (codes "xtp", codes "application/octet-stream")
    ∷ (codes "xul", codes "application/vnd.mozilla.xul+xml")
    ∷ (codes "xvm", codes "application/xv+xml")
    ∷ (codes "xvml", codes "application/xv+xml")
    ∷ (codes "xwd", codes "image/x-xwindowdump")
    ∷ (codes "xyz", codes "chemical/x-xyz")
    ∷ (codes "xz", codes "application/x-xz")
    ∷ (codes "yaml", codes "text/x-yaml")
    ∷ (codes "yang", codes "application/yang")
    ∷ (codes "yin", codes "application/yin+xml")
    ∷ (codes "yml", codes "text/x-yaml")
    ∷ (codes "ymp", codes "text/x-suse-ymp")
    ∷ (codes "z", codes "application/x-compress")
    ∷ (codes "z1", codes "application/x-zmachine")
    ∷ (codes "z2", codes "application/x-zmachine")
    ∷ (codes "z3", codes "application/x-zmachine")
    ∷ (codes "z4", codes "application/x-zmachine")
    ∷ (codes "z5", codes "application/x-zmachine")
    ∷ (codes "z6", codes "application/x-zmachine")
    ∷ (codes "z7", codes "application/x-zmachine")
    ∷ (codes "z8", codes "application/x-zmachine")
    ∷ (codes "zaz", codes "application/vnd.zzazz.deck+xml")
    ∷ (codes "zip", codes "application/zip")
    ∷ (codes "zir", codes "application/vnd.zul")
    ∷ (codes "zirz", codes "application/vnd.zul")
    ∷ (codes "zmm", codes "application/vnd.handheld-entertainment+xml")
    ∷ []
